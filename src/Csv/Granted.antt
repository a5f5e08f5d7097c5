-- ===== src/Csv/Granted.antt =====
-- The permissions that the bindings of clusterserviceversion_updaters.go give to a service account.
use operator_sdk.Base.{
  Option-cases, String, ◌&&◌, Option, none, some, List, [], ◌∷◌, ◌++◌, ◌==◌, ==_iff, if◌then◌else◌,
  arith, ◌≡◌, refl, ap, sym, inl, inr, contains,
}
use mathlib.Core.List.{append_assoc, append-nil}
use operator_sdk.Collector.NameMap.{lookup, lookup-put}
use operator_sdk.Collector.Permissions.{RoleRef, Subject, Binding}
use operator_sdk.Csv.{init_permission_set, grant_subject, grant_subjects, grant}

-- The rules that the subjects of one binding give to a service account, once for each mention.
unfoldable pub subject_rules : String → List String → List Subject → List String
subject_rules sa rules [] = []
subject_rules sa rules (s ∷ ss) =
    (if (s.name == sa) && (s.kind == "ServiceAccount") then rules else [])
    ++ subject_rules sa rules ss

unfoldable pub binding_rules : String → (RoleRef → List String) → List Binding → List String
unfolding subject_rules
binding_rules sa rules [] = []
binding_rules sa rules (b ∷ bs) =
    subject_rules sa (rules b.role_ref) b.subjects ++ binding_rules sa rules bs

-- The rules of a service account with more of them, where the map has it.
unfoldable pub more_rules : List String → Option (List String) → Option (List String)
more_rules rules none = none
more_rules rules (some old) = some (old ++ rules)

more_rules-nil : (o : Option (List String)) → more_rules [] o ≡ o
unfolding more_rules
more_rules-nil none = refl
more_rules-nil (some old) = ap some (append-nil old)

lookup-grant_subject :
    (sa : String) (rules : List String) (s : Subject) (m : List (String × List String))
    → lookup sa (grant_subject rules s m)
      ≡ more_rules
          (if (s.name == sa) && (s.kind == "ServiceAccount") then rules else [])
          (lookup sa m)
unfolding grant_subject more_rules
lookup-grant_subject sa rules s m = elim (Option-cases (lookup s.name m)) [
  | inl e ↦ ground (arith, e, ==_iff s.name sa, more_rules-nil (lookup sa m))
  | inr (old, e) ↦ ground (
    arith,
    e,
    ==_iff s.name sa,
    lookup-put s.name sa (old ++ rules) m,
    more_rules-nil (lookup sa m),
  )
]

more_rules-append :
    (xs ys : List String) (o : Option (List String))
    → more_rules ys (more_rules xs o) ≡ more_rules (xs ++ ys) o
unfolding more_rules
more_rules-append xs ys none = refl
more_rules-append xs ys (some old) = ap some (append_assoc old xs ys)

lookup-grant_subjects :
    (sa : String) (rules : List String) (ss : List Subject) (m : List (String × List String))
    → lookup sa (grant_subjects rules ss m) ≡ more_rules (subject_rules sa rules ss) (lookup sa m)
unfolding grant_subjects subject_rules
lookup-grant_subjects sa rules [] m = sym (more_rules-nil (lookup sa m))
lookup-grant_subjects sa rules (s ∷ ss) m =
    rw
      (
        lookup-grant_subjects sa rules ss (grant_subject rules s m),
        lookup-grant_subject sa rules s m,
      )
      (more_rules-append (if (s.name == sa) && (s.kind == "ServiceAccount") then rules else [])
        (subject_rules sa rules ss) (lookup sa m))

pub lookup-grant :
    (sa : String) (rules : RoleRef → List String) (bs : List Binding)
    (m : List (String × List String))
    → lookup sa (grant rules bs m) ≡ more_rules (binding_rules sa rules bs) (lookup sa m)
unfolding grant binding_rules
lookup-grant sa rules [] m = sym (more_rules-nil (lookup sa m))
lookup-grant sa rules (b ∷ bs) m =
    rw
      (
        lookup-grant sa rules bs (grant_subjects (rules b.role_ref) b.subjects m),
        lookup-grant_subjects sa (rules b.role_ref) b.subjects m,
      )
      (more_rules-append (subject_rules sa (rules b.role_ref) b.subjects)
        (binding_rules sa rules bs) (lookup sa m))

lookup-init_permission_set :
    (sa : String) (sas : List String)
    → lookup sa (init_permission_set sas) ≡ (if contains sas sa then some [] else none)
unfolding init_permission_set lookup
lookup-init_permission_set sa [] = ground arith
lookup-init_permission_set sa (x ∷ sas) =
    ground (arith, lookup-init_permission_set sa sas, lookup-put x sa [] (init_permission_set sas))

-- What the map has for a service account after the loops over the bindings.
pub grant-init_permission_set :
    (sa : String) (rules : RoleRef → List String) (bs : List Binding) (sas : List String)
    → lookup sa (grant rules bs (init_permission_set sas))
      ≡ (if contains sas sa then some (binding_rules sa rules bs) else none)
unfolding more_rules
grant-init_permission_set sa rules bs sas =
    ground
      (arith, lookup-grant sa rules bs (init_permission_set sas), lookup-init_permission_set sa sas)
