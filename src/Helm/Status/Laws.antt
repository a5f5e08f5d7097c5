-- ===== src/Helm/Status/Laws.antt =====
-- types.go: the conditions read by type.
use operator_sdk.Base.{
  ℕ, String, Bool, true, false, ◌||◌, Option, none, some, List, [], ◌∷◌, ◌≡◌, refl, ap, ◌==◌,
  ==_iff, if◌then◌else◌, arith, any,
}
use operator_sdk.Helm.Status.{
  Condition, HelmAppStatus, restamp, set_in, set_condition, remove_in, remove_condition, status_eq,
  conditions_eq, condition_eq, release_eq, DeployedRelease,
}

-- The first condition of a type.
abbrev pub find_in : String → List Condition → Option Condition
find_in t [] = none
find_in t (d ∷ ds) = let rest = find_in t ds in if d.type == t then some d else rest

abbrev pub find : String → HelmAppStatus → Option Condition
find t s = find_in t s.conditions

-- A condition as it is written when `old` is what stood there.
abbrev pub stamped : ℕ → Condition → Option Condition → Condition
stamped now c none = record c { last_transition_time = now }
stamped now c (some old) =
    if old.status == c.status
    then record c { last_transition_time = old.last_transition_time }
    else record c { last_transition_time = now }

find_in-set_in :
    (now : ℕ) (c : Condition) (t : String) (ds : List Condition)
    → find_in t (set_in now c ds)
      ≡ (if c.type == t then some (stamped now c (find_in c.type ds)) else find_in t ds)
unfolding set_in restamp
find_in-set_in now c t [] = refl
find_in-set_in now c t (d ∷ ds) =
    ground
      (arith, find_in-set_in now c t ds, ==_iff d.type c.type, ==_iff c.type t, ==_iff d.type t)

-- Setting a condition makes it the one of its type, with the time of the last change of its
-- status: the old time if a condition of that type had the same status, and `now` if it had
-- another status or there was none. What is read at any other type is unchanged.
pub find-set_condition :
    (now : ℕ) (c : Condition) (t : String) (s : HelmAppStatus)
    → find t (set_condition now c s)
      ≡ (if c.type == t then some (stamped now c (find c.type s)) else find t s)
unfolding set_condition
find-set_condition now c t s = find_in-set_in now c t s.conditions

-- Some condition has the type.
abbrev pub has_type : String → List Condition → Bool
has_type t = any (λ d. d.type == t)

-- No two conditions have one type.
abbrev pub UniqueIn : List Condition → Type 0
UniqueIn [] = Unit
UniqueIn (d ∷ ds) = (has_type d.type ds ≡ false) × UniqueIn ds

abbrev pub HasUniqueTypes : HelmAppStatus → Type 0
HasUniqueTypes s = UniqueIn s.conditions

has_type-set_in :
    (now : ℕ) (c : Condition) (t : String) (ds : List Condition)
    → has_type t (set_in now c ds) ≡ (c.type == t || has_type t ds)
unfolding set_in restamp
has_type-set_in now c t [] = refl
has_type-set_in now c t (d ∷ ds) =
    ground
      (arith, has_type-set_in now c t ds, ==_iff d.type c.type, ==_iff c.type t, ==_iff d.type t)

set_in-UniqueIn :
    (now : ℕ) (c : Condition) (ds : List Condition) → UniqueIn ds → UniqueIn (set_in now c ds)
unfolding set_in restamp
set_in-UniqueIn now c [] u = (refl, tt)
set_in-UniqueIn now c (d ∷ ds) u = ground (
  arith,
  set_in-UniqueIn now c ds u.1,
  has_type-set_in now c d.type ds,
  ==_iff d.type c.type,
  ==_iff c.type d.type,
)

-- Setting a condition keeps the types of the conditions distinct.
pub set_condition-HasUniqueTypes :
    (now : ℕ) (c : Condition) (s : HelmAppStatus)
    → HasUniqueTypes s
    → HasUniqueTypes (set_condition now c s)
unfolding set_condition
set_condition-HasUniqueTypes now c s u = set_in-UniqueIn now c s.conditions u

find_in_absent : (t : String) (ds : List Condition) → has_type t ds ≡ false → find_in t ds ≡ none
find_in_absent t [] h = refl
find_in_absent t (d ∷ ds) h = ground (arith, find_in_absent t ds)

find_in-remove_in :
    (t u : String) (ds : List Condition)
    → UniqueIn ds
    → find_in u (remove_in t ds) ≡ (if t == u then none else find_in u ds)
unfolding remove_in
find_in-remove_in t u [] h = ground arith
find_in-remove_in t u (d ∷ ds) h = ground (
  arith,
  find_in-remove_in t u ds h.1,
  find_in_absent d.type ds h.0,
  ==_iff d.type t,
  ==_iff t u,
  ==_iff d.type u,
)

-- Where the types are distinct, removing a condition leaves none of its type, and what is read
-- at any other type is unchanged.
pub find-remove_condition :
    (t u : String) (s : HelmAppStatus)
    → HasUniqueTypes s
    → find u (remove_condition t s) ≡ (if t == u then none else find u s)
unfolding remove_condition
find-remove_condition t u s h = find_in-remove_in t u s.conditions h

has_type-remove_in :
    (t u : String) (ds : List Condition)
    → has_type u ds ≡ false
    → has_type u (remove_in t ds) ≡ false
unfolding remove_in
has_type-remove_in t u [] h = refl
has_type-remove_in t u (d ∷ ds) h = ground (arith, has_type-remove_in t u ds)

remove_in-UniqueIn : (t : String) (ds : List Condition) → UniqueIn ds → UniqueIn (remove_in t ds)
unfolding remove_in
remove_in-UniqueIn t [] h = tt
remove_in-UniqueIn t (d ∷ ds) h =
    ground (arith, remove_in-UniqueIn t ds h.1, has_type-remove_in t d.type ds h.0)

-- Removing a condition keeps the types of the conditions distinct.
pub remove_condition-HasUniqueTypes :
    (t : String) (s : HelmAppStatus) → HasUniqueTypes s → HasUniqueTypes (remove_condition t s)
unfolding remove_condition
remove_condition-HasUniqueTypes t s h = remove_in-UniqueIn t s.conditions h

set_condition_twice_in :
    (n m : ℕ) (c : Condition) (ds : List Condition) → set_in m c (set_in n c ds) ≡ set_in n c ds
unfolding set_in restamp
set_condition_twice_in n m c [] = ground (arith, ==_iff c.type c.type, ==_iff c.status c.status)
set_condition_twice_in n m c (d ∷ ds) = ground (
  arith,
  set_condition_twice_in n m c ds,
  ==_iff d.type c.type,
  ==_iff c.type c.type,
  ==_iff c.status c.status,
)

-- Setting a condition a second time, at any time, changes nothing: in particular the transition
-- time stays.
pub set_condition_idem :
    (n m : ℕ) (c : Condition) (s : HelmAppStatus)
    → set_condition m c (set_condition n c s) ≡ set_condition n c s
unfolding set_condition
set_condition_idem n m c s =
    ap (λ (l : List Condition). record s { conditions = l })
      (set_condition_twice_in n m c s.conditions)

condition_eq_sound : (c d : Condition) → condition_eq c d ≡ true → c ≡ d
unfolding condition_eq
condition_eq_sound c d h = ground (
  arith,
  ==_iff c.type d.type,
  ==_iff c.status d.status,
  ==_iff c.reason d.reason,
  ==_iff c.message d.message,
)

conditions_eq_sound : (cs ds : List Condition) → conditions_eq cs ds ≡ true → cs ≡ ds
unfolding conditions_eq
conditions_eq_sound [] [] h = refl
conditions_eq_sound [] (d ∷ ds) h = cc
conditions_eq_sound (c ∷ cs) [] h = cc
conditions_eq_sound (c ∷ cs) (d ∷ ds) h =
    ground (arith, condition_eq_sound c d, conditions_eq_sound cs ds)

release_eq_sound : (r q : Option DeployedRelease) → release_eq r q ≡ true → r ≡ q
unfolding release_eq
release_eq_sound none none h = refl
release_eq_sound none (some q) h = cc
release_eq_sound (some r) none h = cc
release_eq_sound (some r) (some q) h =
    ground (arith, ==_iff r.name q.name, ==_iff r.manifest q.manifest)

-- Statuses that `reflect.DeepEqual` takes for equal are equal.
pub status_eq_sound : (s t : HelmAppStatus) → status_eq s t ≡ true → s ≡ t
unfolding status_eq
status_eq_sound s t h = ground (
  arith,
  conditions_eq_sound s.conditions t.conditions,
  release_eq_sound s.deployed_release t.deployed_release,
)
