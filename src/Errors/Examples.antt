-- ===== src/Errors/Examples.antt =====
-- Errors of a database connection.
use pg_tide.Prelude.{◌≡◌, refl}
use pg_tide.Prelude.Text.{Text, text}
use pg_tide.Foreign.Samples.{sample}
use pg_tide.Errors.{
  RelayError, connector_failure, authentication, permanent, postgres, into_connector_failure,
}

abbrev bad_password : RelayError sample
bad_password = postgres (text "28P01")

bad_password_permanent :
    into_connector_failure bad_password (text "pg")
    ≡ connector_failure
        (text "pg")
        authentication
        permanent
        (text "database authentication rejected")
unfolding into_connector_failure
bad_password_permanent =
    unfold pg_tide.Errors.postgres_connector_failure text pg_tide.Prelude.Text.text_eq in refl
