-- ===== src/Helm/Status.antt =====
-- internal/helm/internal/types/types.go: the status of a custom resource.
pub mod Laws
use operator_sdk.Base.{
  ℕ, String, Bool, true, false, ◌&&◌, Option, none, some, List, [], ◌∷◌, ◌++◌, ◌==◌, nat_beq,
  if◌then◌else◌,
}

-- `HelmAppCondition`; a time is a number.
pub record Condition : Type 0 where
  pub type : String
  pub status : String
  pub reason : String
  pub message : String
  pub last_transition_time : ℕ

-- `HelmAppRelease`
pub record DeployedRelease : Type 0 where
  pub name : String
  pub manifest : String

-- `HelmAppStatus`; the nil pointer to a release is `none`.
pub record HelmAppStatus : Type 0 where
  pub conditions : List Condition
  pub deployed_release : Option DeployedRelease

abbrev pub condition_initialized : String
condition_initialized = "Initialized"

abbrev pub condition_deployed : String
condition_deployed = "Deployed"

abbrev pub condition_release_failed : String
condition_release_failed = "ReleaseFailed"

abbrev pub condition_irreconcilable : String
condition_irreconcilable = "Irreconcilable"

abbrev pub status_true : String
status_true = "True"

abbrev pub status_false : String
status_false = "False"

-- The literal that a caller of `SetCondition` writes; its time is the zero time.
abbrev pub condition : String → String → String → String → Condition
condition type status reason message = record {
  type = type;
  status = status;
  reason = reason;
  message = message;
  last_transition_time = 0;
}

-- The new condition in place of an old one of its type.
unfoldable pub restamp : ℕ → Condition → Condition → Condition
restamp now c old =
    if old.status == c.status
    then record c { last_transition_time = old.last_transition_time }
    else record c { last_transition_time = now }

-- The loop of `SetCondition` and the append behind it.
unfoldable pub set_in : ℕ → Condition → List Condition → List Condition
set_in now c [] = record c { last_transition_time = now } ∷ []
set_in now c (d ∷ ds) =
    let rest = set_in now c ds in if d.type == c.type then restamp now c d ∷ ds else d ∷ rest

-- `SetCondition`, with the clock's reading.
unfoldable pub set_condition : ℕ → Condition → HelmAppStatus → HelmAppStatus
set_condition now c s = record s { conditions = set_in now c s.conditions }

-- The loop of `RemoveCondition`.
unfoldable pub remove_in : String → List Condition → List Condition
remove_in t [] = []
remove_in t (d ∷ ds) = let rest = remove_in t ds in if d.type == t then ds else d ∷ rest

-- `RemoveCondition`
unfoldable pub remove_condition : String → HelmAppStatus → HelmAppStatus
remove_condition t s = record s { conditions = remove_in t s.conditions }

-- What `cr.Object["status"]` holds: a typed status, an untyped map, or neither.
pub data StatusField (Raw : Type 0) : Type 0 where
  typed : HelmAppStatus → StatusField Raw
  untyped : Raw → StatusField Raw
  absent : StatusField Raw

abbrev pub empty_status : HelmAppStatus
empty_status = record { conditions = []; deployed_release = none }

-- `StatusFor`; `convert` is the converter of apimachinery, `none` where it fails.
unfoldable pub status_for :
    {Raw : Type 0} → (Raw → Option HelmAppStatus) → StatusField Raw → HelmAppStatus
status_for convert (typed s) = s
status_for convert (untyped raw) = elim (convert raw) [ some s ↦ s | none ↦ empty_status ]
status_for convert absent = empty_status

-- `reflect.DeepEqual` on statuses.
unfoldable pub condition_eq : Condition → Condition → Bool
condition_eq c d =
    c.type == d.type
    && (c.status == d.status
        && (c.reason == d.reason
            && (c.message == d.message && nat_beq c.last_transition_time d.last_transition_time)))

unfoldable pub conditions_eq : List Condition → List Condition → Bool
unfolding condition_eq
conditions_eq [] [] = true
conditions_eq (c ∷ cs) (d ∷ ds) = condition_eq c d && conditions_eq cs ds
conditions_eq _ _ = false

unfoldable pub release_eq : Option DeployedRelease → Option DeployedRelease → Bool
release_eq none none = true
release_eq (some r) (some q) = r.name == q.name && r.manifest == q.manifest
release_eq _ _ = false

unfoldable pub status_eq : HelmAppStatus → HelmAppStatus → Bool
unfolding conditions_eq release_eq
status_eq s t =
    conditions_eq s.conditions t.conditions && release_eq s.deployed_release t.deployed_release
