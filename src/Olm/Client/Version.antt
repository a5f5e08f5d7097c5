-- ===== src/Olm/Client/Version.antt =====
-- client.go: GetInstalledVersion and getOLMVersionFromPackageServerCSV.
use operator_sdk.Base.{
  Bool, ◌||◌, Option, none, some, List, [], ◌∷◌, ◌++◌, ◌≡◌, ◌↔◌, refl, is_some, nat_beq,
  nat_beq_iff, filter, if◌then◌else◌, arith, inl, inr, Bool-cases,
}
use operator_sdk.Base.Text.{codes, same}
use operator_sdk.Base.Split.{Text}
use operator_sdk.Errors.{Error, is_not_found, is_no_match, Result, ok, err}

-- A CSV: its name, and its label `olm.version` if it has one.
pub record OlmCsv : Type 0 where
  pub name : Text
  pub version_label : Option Text

-- What `GetInstalledVersion` returns; `not_installed` is `ErrOLMNotInstalled`.
pub data Installed : Type 0 where
  version : Text → Installed
  not_installed : Installed
  list_failed : Error → Installed
  more_than_one : Text → Text → Installed
  no_version : Text → Installed

abbrev pub package_server_old_name_prefix : Text
package_server_old_name_prefix = codes "packageserver."

abbrev pub package_server_new_name : Text
package_server_new_name = codes "packageserver"

-- What follows the prefix, if the text has it.
unfoldable pub strip_prefix : Text → Text → Option Text
strip_prefix [] s = some s
strip_prefix (p ∷ ps) [] = none
strip_prefix (p ∷ ps) (c ∷ s) = let rest = strip_prefix ps s in if nat_beq p c then rest else none

-- `strings.TrimPrefix`
unfoldable pub trim_prefix : Text → Text → Text
unfolding strip_prefix
trim_prefix p s = elim (strip_prefix p s) [ none ↦ s | some r ↦ r ]

-- `name == pkgServerCSVNewName || strings.HasPrefix(name, pkgServerCSVOldNamePrefix)`
unfoldable pub is_package_server : OlmCsv → Bool
unfolding strip_prefix
is_package_server c =
    same c.name package_server_new_name
    || is_some (strip_prefix package_server_old_name_prefix c.name)

-- `semver.Parse` is a parameter; it says whether there is no error.
module _ (is_semver : Text → Bool) where
  -- `getOLMVersionFromPackageServerCSV`
  unfoldable pub olm_version : OlmCsv → Installed
  unfolding trim_prefix
  olm_version c = elim c.version_label [
    | some v ↦ version v
    | none ↦
        let v = trim_prefix (codes "v") (trim_prefix package_server_old_name_prefix c.name) in
        if is_semver v then version v else no_version c.name
  ]

  -- The loop over the CSVs, with the package server found so far, and what comes after it.
  unfoldable pub package_server_version : Option OlmCsv → List OlmCsv → Installed
  package_server_version acc [] = elim acc [ none ↦ not_installed | some c ↦ olm_version c ]
  package_server_version acc (c ∷ cs) =
      let found = package_server_version (some c) cs in
      let passed = package_server_version acc cs in
      if is_package_server c
      then elim acc [ none ↦ found | some p ↦ more_than_one p.name c.name ]
      else passed

  -- `GetInstalledVersion`, on the answer to `List`.
  unfoldable pub get_installed_version : Result (List OlmCsv) → Installed
  get_installed_version (err e) =
      if is_not_found e || is_no_match e then not_installed else list_failed e
  get_installed_version (ok cs) = package_server_version none cs

  version_after :
      (p : OlmCsv) (cs : List OlmCsv) (v : Text)
      → (package_server_version (some p) cs ≡ version v)
        ↔ ((filter is_package_server cs ≡ []) × (olm_version p ≡ version v))
  unfolding package_server_version
  version_after p [] v = (λ h. (refl, h), λ h. h.1)
  version_after p (c ∷ cs) v = ground (arith, version_after p cs v)

  version_of :
      (cs : List OlmCsv) (v : Text)
      → (package_server_version none cs ≡ version v)
        ↔ ((c : OlmCsv) × (filter is_package_server cs ≡ c ∷ []) × (olm_version c ≡ version v))
  unfolding package_server_version
  version_of [] v = (λ h. absurd (cc), λ (c, h, g). absurd (cc))
  version_of (c ∷ cs) v = elim (Bool-cases (is_package_server c)) [
    | inr q ↦ rw q (version_of cs v)
    | inl q ↦ rw q (
      λ h. (c, ground (arith, version_after c cs v, h), ground (arith, version_after c cs v, h)),
      λ (d, h, g). ground (arith, version_after c cs v, h, g),
    )
  ]

  -- A version is found in a list of CSVs exactly if one CSV, and only one, is that of the package
  -- server, and it is the version of that CSV.
  pub get_installed_version_iff :
      (cs : List OlmCsv) (v : Text)
      → (get_installed_version (ok cs) ≡ version v)
        ↔ ((c : OlmCsv) × (filter is_package_server cs ≡ c ∷ []) × (olm_version c ≡ version v))
  unfolding get_installed_version
  get_installed_version_iff cs v = version_of cs v

strip_prefix-append : (p s : Text) → strip_prefix p (p ++ s) ≡ some s
unfolding strip_prefix
strip_prefix-append [] s = refl
strip_prefix-append (c ∷ p) s = ground (arith, strip_prefix-append p s, nat_beq_iff c c)
