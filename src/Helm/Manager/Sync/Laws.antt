-- ===== src/Helm/Manager/Sync/Laws.antt =====
-- manager.go: the storage and the manager after `Sync`.
use operator_sdk.Base.{
  ℕ, String, Bool, true, false, not, ◌||◌, ◌&&◌, none, some, List, [], ◌∷◌, ◌≡◌, ◌⊎◌, refl, ◌==◌,
  ==_iff, nat_beq, arith, any, all, filter, inl, inr, Option-cases, Bool-cases,
}
use operator_sdk.Errors.{mentions, Error, is_release_not_found, ok, err, Result-cases}
use operator_sdk.Helm.Release.{Release}
use operator_sdk.Helm.Manager.Sync.{
  Storage, ManagerState, not_found_err, fatal, is_stale, delete_stale, get_deployed_release,
  delete_if_stale, load_deployed, load_history, sync,
}

abbrev pub has_version : ℕ → Release → Bool
has_version v rel = nat_beq rel.version v

-- The documented behaviour of Helm's storage, told of the releases kept under one name: the
-- history lists them, a deletion that succeeds removes the releases with the version, and one
-- that reports "not found" found none with the version and removes nothing.
pub record IsStorage {State : Type 0} (S : Storage State) (name : String) : Type 0 where
  pub view : State → List Release
  pub names : (s : State) → all (λ r. r.name == name) (view s) ≡ true
  pub history_ok : (s : State) (rels : List Release) → S.history name s ≡ ok rels → rels ≡ view s
  pub history_err :
      (s : State) (e : Error) → S.history name s ≡ err e → not_found_err e ≡ true → view s ≡ []
  pub delete_ok :
      (s : State) (v : ℕ)
      → (S.delete name v s).0 ≡ none
      → view (S.delete name v s).1 ≡ filter (λ r. not (has_version v r)) (view s)
  pub delete_err :
      (s : State) (v : ℕ) (e : Error)
      → (S.delete name v s).0 ≡ some e
      → not_found_err e ≡ true
      → (view (S.delete name v s).1 ≡ view s) × (any (has_version v) (view s) ≡ false)

-- A stale release of the list has the version.
abbrev stale_in : List Release → ℕ → Bool
stale_in rels v = any (λ r. is_stale r && nat_beq r.version v) rels

-- Every release is fresh, or will be deleted with one of `rels`.
abbrev Covered : List Release → List Release → Type 0
Covered rels xs = all (λ x. not (is_stale x) || stale_in rels x.version) xs ≡ true

Covered-filter :
    (r : Release) (rels xs : List Release)
    → Covered (r ∷ rels) xs
    → Covered rels (filter (λ x. not (has_version r.version x)) xs)
Covered-filter r rels [] h = refl
Covered-filter r rels (x ∷ xs) h = ground (arith, Covered-filter r rels xs)

Covered-absent :
    (r : Release) (rels xs : List Release)
    → Covered (r ∷ rels) xs
    → any (has_version r.version) xs ≡ false
    → Covered rels xs
Covered-absent r rels [] h a = refl
Covered-absent r rels (x ∷ xs) h a = ground (arith, Covered-absent r rels xs)

Covered-fresh :
    (r : Release) (rels xs : List Release)
    → is_stale r ≡ false
    → Covered (r ∷ rels) xs
    → Covered rels xs
Covered-fresh r rels [] f h = refl
Covered-fresh r rels (x ∷ xs) f h = ground (arith, Covered-fresh r rels xs)

Covered-cons : (r : Release) (rels xs : List Release) → Covered rels xs → Covered (r ∷ rels) xs
Covered-cons r rels [] h = refl
Covered-cons r rels (x ∷ xs) h = ground (arith, Covered-cons r rels xs)

Covered-refl : (xs : List Release) → Covered xs xs
Covered-refl [] = refl
Covered-refl (x ∷ xs) = ground (arith, Covered-cons x xs xs (Covered-refl xs))

module _ {State : Type 0} (S : Storage State) (name : String) (L : IsStorage S name) where
  delete-Covered :
      (r : Release) (rels : List Release) (s : State)
      → Covered (r ∷ rels) (L.view s)
      → fatal (S.delete name r.version s).0 ≡ none
      → Covered rels (L.view (S.delete name r.version s).1)
  unfolding fatal
  delete-Covered r rels s h f = elim (Option-cases (S.delete name r.version s).0) [
    | inl e ↦ rw (L.delete_ok s r.version e) (Covered-filter r rels (L.view s) h)
    | inr (x, e) ↦
        let g : not_found_err x ≡ true = ground (arith, f, e) in
        let (same, gone) = L.delete_err s r.version x e g in
        rw same (Covered-absent r rels (L.view s) h gone)
  ]

  delete_if_stale-Covered :
      (r : Release) (rels : List Release) (s : State)
      → (r.name == name) ≡ true
      → Covered (r ∷ rels) (L.view s)
      → fatal (delete_if_stale S r s).0 ≡ none
      → Covered rels (L.view (delete_if_stale S r s).1)
  unfolding delete_if_stale
  delete_if_stale-Covered r rels s n h f = elim (Bool-cases (is_stale r)) [
    | inl st ↦
        rw (st, (==_iff r.name name).0 n)
          (delete-Covered r rels s h (rw (st, (==_iff r.name name).0 n) at f))
    | inr fresh ↦ rw fresh (Covered-fresh r rels (L.view s) fresh h)
  ]

  delete_stale-Covered :
      (rels : List Release) (s : State)
      → all (λ r. r.name == name) rels ≡ true
      → Covered rels (L.view s)
      → (delete_stale S rels s).0 ≡ none
      → Covered [] (L.view (delete_stale S rels s).1)
  unfolding delete_stale
  delete_stale-Covered [] s n h e = h
  delete_stale-Covered (r ∷ rels) s n h e = elim (Option-cases (fatal (delete_if_stale S r s).0)) [
    | inl f ↦
        rw (f, delete_stale)
          (delete_stale-Covered rels (delete_if_stale S r s).1 (ground (arith, n))
            (delete_if_stale-Covered r rels s (ground (arith, n)) h f) (rw (f, delete_stale) at e))
    | inr (x, f) ↦ ground (arith, e, f)
  ]

  all_fresh : (xs : List Release) → Covered [] xs → all (λ x. not (is_stale x)) xs ≡ true
  all_fresh [] h = refl
  all_fresh (x ∷ xs) h = ground (arith, all_fresh xs)

  load_history-view :
      (s : State) (rels : List Release) → load_history S name s ≡ ok rels → rels ≡ L.view s
  unfolding load_history
  load_history-view s rels h = elim (Result-cases (S.history name s)) [
    | inl (rs, e) ↦ ground (arith, L.history_ok s rs e, e, h)
    | inr (x, e) ↦ elim (Bool-cases (not_found_err x)) [
      | inl f ↦ ground (arith, L.history_err s x e f, e, f, h)
      | inr f ↦ absurd (ground (arith, e, f, h))
    ]
  ]

  -- Over a storage that behaves as documented, a `Sync` that ends without an error leaves only
  -- deployed releases, and releases with no info, under its name.
  pub sync_deletes_stale :
      (m : ManagerState) (s : State)
      → m.release_name ≡ name
      → (sync S m s).0 ≡ none
      → all (λ x. not (is_stale x)) (L.view (sync S m s).2) ≡ true
  unfolding sync
  sync_deletes_stale m s n e = elim (Result-cases (load_history S name s)) [
    | inr (x, h) ↦ absurd (ground (arith, rw (n, h, sync) at e))
    | inl (rels, h) ↦
        let same = load_history-view s rels h in
        elim (Option-cases (delete_stale S rels s).0) [
          | inr (x, f) ↦ absurd (ground (arith, rw (n, h, f, sync) at e))
          | inl f ↦
              rw (n, h, f, sync)
                (all_fresh _ (
                  delete_stale-Covered rels s (rw same (L.names s))
                    (rw same (Covered-refl (L.view s))) f))
        ]
  ]

module _ {State : Type 0} (S : Storage State) where
  -- The storage has no deployed release: it says so, or that the release was not found.
  abbrev pub IsMissing : String → State → Type 0
  IsMissing name s =
      (e : Error) × (S.deployed name s ≡ err e)
      × ((mentions e "has no deployed releases" ≡ true) ⊎ (is_release_not_found e ≡ true))

  get_deployed_release-ok :
      (name : String) (s : State) (rel : Release)
      → get_deployed_release S name s ≡ ok rel
      → S.deployed name s ≡ ok rel
  unfolding get_deployed_release
  get_deployed_release-ok name s rel h = elim (Result-cases (S.deployed name s)) [
    | inl (r, e) ↦ ground (arith, e, h)
    | inr (x, e) ↦ elim (Bool-cases (mentions x "has no deployed releases")) [
      | inl f ↦ absurd (ground (arith, e, f, h))
      | inr f ↦ absurd (ground (arith, e, f, h))
    ]
  ]

  get_deployed_release-IsMissing :
      (name : String) (s : State) (e : Error)
      → get_deployed_release S name s ≡ err e
      → is_release_not_found e ≡ true
      → IsMissing name s
  unfolding get_deployed_release
  get_deployed_release-IsMissing name s e h n = elim (Result-cases (S.deployed name s)) [
    | inl (r, f) ↦ absurd (ground (arith, f, h))
    | inr (x, f) ↦ elim (Bool-cases (mentions x "has no deployed releases")) [
      | inl g ↦ (x, f, inl g)
      | inr g ↦ (x, f, inr (ground (arith, f, g, h, n)))
    ]
  ]

  load_deployed-decides :
      (m : ManagerState) (s : State)
      → m.is_upgrade_required ≡ false
      → (load_deployed S m s).0 ≡ none
      → (IsMissing m.release_name s × ((load_deployed S m s).1 ≡ m))
        ⊎ ((rel cand : Release) × (S.deployed m.release_name s ≡ ok rel)
            × (S.candidate m.release_name s ≡ ok cand)
            × ((load_deployed S m s).1 ≡ record m {
              deployed_release = some rel;
              is_installed = true;
              is_upgrade_required = not (rel.manifest == cand.manifest);
            }))
  unfolding load_deployed
  load_deployed-decides m s u e = elim (Result-cases (get_deployed_release S m.release_name s)) [
    | inr (x, g) ↦ inl (
      get_deployed_release-IsMissing m.release_name s x g (ground (arith, e, g)),
      ground (arith, e, g),
    )
    | inl (rel, g) ↦ elim (Result-cases (S.candidate m.release_name s)) [
      | inr (x, c) ↦ absurd (ground (arith, e, g, c))
      | inl (cand, c) ↦
          inr (
            rel,
            cand,
            get_deployed_release-ok m.release_name s rel g,
            c,
            ground (arith, e, g, c, u),
          )
    ]
  ]

  -- A `Sync` of a new manager that ends without an error decides by the storage as it is then:
  -- either the storage says that there is no deployed release or that the release was not found,
  -- and the manager is unchanged, or the storage's deployed release is the manager's, the manager says that it is installed, and an upgrade is required exactly if
  -- the candidate release has another manifest.
  pub sync_decides :
      (m : ManagerState) (s : State)
      → m.is_upgrade_required ≡ false
      → (sync S m s).0 ≡ none
      → let (e, m', s') = sync S m s in
        (IsMissing m.release_name s' × (m' ≡ m))
        ⊎ ((rel cand : Release) × (S.deployed m.release_name s' ≡ ok rel)
            × (S.candidate m.release_name s' ≡ ok cand)
            × (m' ≡ record m {
              deployed_release = some rel;
              is_installed = true;
              is_upgrade_required = not (rel.manifest == cand.manifest);
            }))
  unfolding sync
  sync_decides m s u e = elim (Result-cases (load_history S m.release_name s)) [
    | inr (x, h) ↦ absurd (ground (arith, rw (h, sync) at e))
    | inl (rels, h) ↦ elim (Option-cases (delete_stale S rels s).0) [
      | inr (x, f) ↦ absurd (ground (arith, rw (h, f, sync) at e))
      | inl f ↦
          rw (h, f, sync)
            (load_deployed-decides m (delete_stale S rels s).1 u (rw (h, f, sync) at e))
    ]
  ]
