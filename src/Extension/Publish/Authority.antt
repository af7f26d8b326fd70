-- ===== src/Extension/Publish/Authority.antt =====
-- Who may publish: the code against a description of its own.
use pg_tide.Prelude.{
  Occurs, ◌≡◌, ◌⊎◌, refl, ap, ◌∙◌, Bool, true, false, not, Option, some, List, ◌&&◌, inl, inr, any,
  if◌then◌else◌,
}
use pg_tide.Prelude.Text.{Text, text, text_eq}
use pg_tide.Extension.Failures.{ok}
use pg_tide.Extension.Database.{Publisher}
use pg_tide.Extension.Candidates.Removal.{any-Occurs, Occurs-any, and_left, and_right}
use pg_tide.Extension.Publish.{Roles, is_publisher_of, acl_verdict, accept_verdict}

-- A publisher of the outbox of which the user is a member, who also has the publishers' role.
pub record IsPublisher (roles : Roles) (user name : Text) (publishers : List Publisher)
    : Type 0 where
  pub role_exists : roles.has_publisher_role ≡ true
  pub has_role : roles.is_member user (text "tide_publisher") ≡ true
  pub grant : Publisher
  pub granted : Occurs grant publishers
  pub on_outbox : text_eq name grant.outbox ≡ true
  pub to_user : roles.is_member user grant.role ≡ true

-- The user may publish: a superuser, the owner of the extension, or a publisher.
pub data MayPublish (roles : Roles) (user name : Text) (publishers : List Publisher) : Type 0 where
  as_superuser : roles.is_superuser user ≡ some true → MayPublish roles user name publishers
  as_owner : roles.is_extension_owner user ≡ some true → MayPublish roles user name publishers
  as_publisher : IsPublisher roles user name publishers → MayPublish roles user name publishers

-- The verdict by what it depends on.
verdict_by : Bool → Bool → Bool → Bool → Bool → Option Text
verdict_by superuser owner publisher listed member =
    if superuser
    then some (text "superuser")
    else if owner
    then some (text "extension_owner")
    else if not publisher
    then some (text "denied")
    else if not listed
    then some (text "denied")
    else if member
    then some (text "allowed")
    else some (text "denied")

accepted :
    (superuser owner publisher listed member : Bool) (user name : Text)
    → accept_verdict (verdict_by superuser owner publisher listed member) user name ≡ ok tt
    → (superuser ≡ true) ⊎ (owner ≡ true) ⊎ ((publisher ≡ true) × (member ≡ true))
unfolding verdict_by accept_verdict text text_eq
accepted true owner publisher listed member user name h = inl refl
accepted false true publisher listed member user name h = inr (inl refl)
accepted false false true true true user name h = inr (inr (refl, refl))
accepted false false false listed member user name h = cc h
accepted false false true false member user name h = cc h
accepted false false true true false user name h = cc h

acceptable :
    (superuser owner publisher listed member : Bool) (user name : Text)
    → (superuser ≡ true) ⊎ (owner ≡ true) ⊎ ((publisher ≡ true) × (listed ≡ true) × (member ≡ true))
    → accept_verdict (verdict_by superuser owner publisher listed member) user name ≡ ok tt
unfolding verdict_by accept_verdict text text_eq
acceptable true owner publisher listed member user name h = refl
acceptable false true publisher listed member user name h = refl
acceptable false false true true true user name h = refl
acceptable false false false listed member user name (inl h) = cc h
acceptable false false false listed member user name (inr (inl h)) = cc h
acceptable false false false listed member user name (inr (inr h)) = let e = h.0 in cc e
acceptable false false true false member user name (inl h) = cc h
acceptable false false true false member user name (inr (inl h)) = cc h
acceptable false false true false member user name (inr (inr h)) = let e = h.1 in cc e
acceptable false false true true false user name (inl h) = cc h
acceptable false false true true false user name (inr (inl h)) = cc h
acceptable false false true true false user name (inr (inr h)) = let e = h.2 in cc e

module _ (roles : Roles) (user name : Text) (publishers : List Publisher) where
  member_of : Publisher → Bool
  member_of p = is_publisher_of name p && roles.is_member user p.role

  as_IsPublisher :
      (roles.has_publisher_role && roles.is_member user (text "tide_publisher")) ≡ true
      → any member_of publishers ≡ true
      → IsPublisher roles user name publishers
  unfolding member_of is_publisher_of
  as_IsPublisher role listed =
      let (grant, granted, is_member) = any-Occurs member_of publishers listed in
      record {
        role_exists = and_left roles.has_publisher_role _ role;
        has_role = and_right roles.has_publisher_role _ role;
        grant = grant;
        granted = granted;
        on_outbox = and_left (text_eq name grant.outbox) _ is_member;
        to_user = and_right (text_eq name grant.outbox) _ is_member;
      }

  -- The verdict accepts exactly who may publish.
  pub accept-MayPublish :
      (superuser owner : Bool)
      → roles.is_superuser user ≡ some superuser
      → roles.is_extension_owner user ≡ some owner
      → accept_verdict (acl_verdict roles name user superuser owner publishers) user name ≡ ok tt
      → MayPublish roles user name publishers
  unfolding acl_verdict member_of verdict_by
  accept-MayPublish superuser owner is_super is_owner h =
      elim (accepted superuser owner
        (roles.has_publisher_role && roles.is_member user (text "tide_publisher"))
        (any (is_publisher_of name) publishers) (any member_of publishers) user name h) [
          | inl holds ↦ as_superuser (is_super ∙ ap (λ (b : Bool). some b) holds)
          | inr (inl holds) ↦ as_owner (is_owner ∙ ap (λ (b : Bool). some b) holds)
          | inr (inr both) ↦ as_publisher (as_IsPublisher both.0 both.1)
        ]

  pub MayPublish-accept :
      (superuser owner : Bool)
      → roles.is_superuser user ≡ some superuser
      → roles.is_extension_owner user ≡ some owner
      → MayPublish roles user name publishers
      → accept_verdict (acl_verdict roles name user superuser owner publishers) user name ≡ ok tt
  unfolding acl_verdict member_of verdict_by is_publisher_of
  MayPublish-accept superuser owner is_super is_owner may =
      acceptable superuser owner _ (any (is_publisher_of name) publishers)
        (any member_of publishers) user name (by_ground may)
    where
      by_ground :
          MayPublish roles user name publishers
          → (superuser ≡ true)
            ⊎ (owner ≡ true)
            ⊎ (((roles.has_publisher_role && roles.is_member user (text "tide_publisher")) ≡ true)
                × (any (is_publisher_of name) publishers ≡ true)
                × (any member_of publishers ≡ true))
      by_ground (as_superuser e) = inl (cc (e, is_super))
      by_ground (as_owner e) = inr (inl (cc (e, is_owner)))
      by_ground (as_publisher p) = inr (
          inr (
            rw (p.role_exists, p.has_role) refl,
            Occurs-any (is_publisher_of name) publishers p.grant p.granted p.on_outbox,
            Occurs-any member_of publishers p.grant p.granted (rw (p.on_outbox, p.to_user) refl),
          ))
