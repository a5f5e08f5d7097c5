-- ===== src/Helm/Watches/Loaded.antt =====
-- What LoadReader accepts, and what it returns.
use mathlib.Core.Path.{subst}
use operator_sdk.Base.{
  String, true, false, Option, none, some, List, [], ◌∷◌, ◌≡◌, ◌≢◌, ◌↔◌, refl, sym, ap, ◌∙◌, arith,
  ==_iff, any, inl, inr, Option-cases,
}
use operator_sdk.Errors.{Result, ok, err, Result-cases}
use operator_sdk.Helm.Watches.{
  Gvk, same_gvk, Watch, Env, verify_gvk, expand_override_values, watch_error, load_watch,
  load_watches, load_reader,
}

pub same_gvk_iff : (a b : Gvk) → (same_gvk a b ≡ true) ↔ (a ≡ b)
unfolding same_gvk
same_gvk_iff a b =
    ground (arith, ==_iff a.group b.group, ==_iff a.version b.version, ==_iff a.kind b.kind)

module _ {Template : Type 0} (E : Env Template) where
  -- The watch is valid, and the kinds seen so far are others.
  pub record IsAccepted (seen : List Gvk) (w : Watch) : Type 0 where
    pub version : w.gvk.version ≢ ""
    pub kind : w.gvk.kind ≢ ""
    pub chart : E.chart_dir_error w.chart_dir ≡ none
    pub new : any (same_gvk w.gvk) seen ≡ false

  -- The watch with its defaults, and with the values expanded.
  abbrev pub completed : Watch → Option (List (String × String)) → Watch
  completed w values = record w {
    watch_dependent_resources = elim w.watch_dependent_resources [
      | none ↦ some true
      | some b ↦ some b
    ];
    override_values = values;
  }

  -- The ways in which a list of watches is loaded, behind the kinds that were seen.
  pub data Loaded : List Gvk → List Watch → List Watch → Type 0 where
    end : {seen : List Gvk} → Loaded seen [] []
    watch :
        {seen : List Gvk} {w : Watch} {ws vs : List Watch}
        {values : Option (List (String × String))}
        → IsAccepted seen w
        → expand_override_values E w.override_values ≡ ok values
        → Loaded (w.gvk ∷ seen) ws vs
        → Loaded seen (w ∷ ws) (completed w values ∷ vs)

  watch_error-none : (seen : List Gvk) (w : Watch) → watch_error E seen w ≡ none → IsAccepted seen w
  unfolding watch_error verify_gvk
  watch_error-none seen w h = record {
    version = λ q. ground (arith, h, q, ==_iff w.gvk.version "");
    kind = λ q. ground (arith, h, q, ==_iff w.gvk.kind "");
    chart = ground (arith, h);
    new = ground (arith, h);
  }

  watch_error-accepted :
      (seen : List Gvk) (w : Watch) → IsAccepted seen w → watch_error E seen w ≡ none
  unfolding watch_error verify_gvk
  watch_error-accepted seen w a =
      ground
        (arith, a.version, a.kind, a.chart, a.new, ==_iff w.gvk.version "", ==_iff w.gvk.kind "")

  load_watch-ok :
      (seen : List Gvk) (w v : Watch)
      → load_watch E seen w ≡ ok v
      → (values : Option (List (String × String))) × IsAccepted seen w
        × (expand_override_values E w.override_values ≡ ok values)
        × (v ≡ completed w values)
  unfolding load_watch
  load_watch-ok seen w v h = elim (Option-cases (watch_error E seen w)) [
    | inr (x, e) ↦ absurd (ground (arith, e, h))
    | inl e ↦ elim (Result-cases (expand_override_values E w.override_values)) [
      | inr (x, f) ↦ absurd (ground (arith, e, f, h))
      | inl (values, f) ↦ (values, watch_error-none seen w e, f, ground (arith, e, f, h))
    ]
  ]

  load_watch-accepted :
      (seen : List Gvk) (w : Watch) (values : Option (List (String × String)))
      → IsAccepted seen w
      → expand_override_values E w.override_values ≡ ok values
      → load_watch E seen w ≡ ok (completed w values)
  unfolding load_watch
  load_watch-accepted seen w values a f = ground (arith, watch_error-accepted seen w a, f)

  load_watches-cons :
      (seen : List Gvk) (w : Watch) (ws us : List Watch)
      → load_watches E seen (w ∷ ws) ≡ ok us
      → (v : Watch) × (vs : List Watch) × (load_watch E seen w ≡ ok v)
        × (load_watches E (w.gvk ∷ seen) ws ≡ ok vs)
        × (us ≡ v ∷ vs)
  unfolding load_watches
  load_watches-cons seen w ws us h = elim (Result-cases (load_watch E seen w)) [
    | inr (x, e) ↦ absurd (ground (arith, e, h))
    | inl (v, e) ↦ elim (Result-cases (load_watches E (w.gvk ∷ seen) ws)) [
      | inr (x, f) ↦ absurd (ground (arith, e, f, h))
      | inl (vs, f) ↦ (v, vs, e, f, ground (arith, e, f, h))
    ]
  ]

  load_watches-nil : (seen : List Gvk) (us : List Watch) → load_watches E seen [] ≡ ok us → [] ≡ us
  unfolding load_watches
  load_watches-nil seen us h = cc

  load_watches-Loaded :
      (seen : List Gvk) (ws us : List Watch) → load_watches E seen ws ≡ ok us → Loaded seen ws us
  load_watches-Loaded seen [] us h = subst (Loaded seen []) (load_watches-nil seen us h) end
  load_watches-Loaded seen (w ∷ ws) us h =
      let (v, vs, e, f, u) = load_watches-cons seen w ws us h in
      let (values, a, x, c) = load_watch-ok seen w v e in
      subst (Loaded seen (w ∷ ws)) (ap (λ t. t ∷ vs) (sym c) ∙ sym u)
        (watch a x (load_watches-Loaded (w.gvk ∷ seen) ws vs f))

  Loaded-load_watches :
      {seen : List Gvk} {ws us : List Watch} → Loaded seen ws us → load_watches E seen ws ≡ ok us
  unfolding load_watches
  Loaded-load_watches end = refl
  Loaded-load_watches (watch {seen = seen} {w = w} {values = values} a x l) =
      ground (arith, load_watch-accepted seen w values a x, Loaded-load_watches l)

  load_reader-ok :
      (read : Result String) (unmarshal : String → Result (List Watch)) (us : List Watch)
      → load_reader E read unmarshal ≡ ok us
      → (b : String) × (ws : List Watch) × (read ≡ ok b)
        × (unmarshal b ≡ ok ws)
        × (load_watches E [] ws ≡ ok us)
  unfolding load_reader
  load_reader-ok (err e) unmarshal us h = absurd (cc)
  load_reader-ok (ok b) unmarshal us h = elim (Result-cases (unmarshal b)) [
    | inl (ws, u) ↦ (b, ws, refl, u, ground (arith, u, h))
    | inr (x, u) ↦ absurd (ground (arith, u, h))
  ]

  load_reader-read :
      (read : Result String) (unmarshal : String → Result (List Watch)) (b : String)
      (ws : List Watch)
      → read ≡ ok b
      → unmarshal b ≡ ok ws
      → load_reader E read unmarshal ≡ load_watches E [] ws
  unfolding load_reader
  load_reader-read read unmarshal b ws r u = ground (arith, r, u)

  -- LoadReader returns a list of watches exactly if the file can be read and decoded, each watch has a
  -- version, a kind, a chart and values that expand, and no kind occurs twice; the list is that of
  -- the file, in its order, with the dependents watched by default and the values expanded.
  pub load_reader-ok_iff :
      (read : Result String) (unmarshal : String → Result (List Watch)) (us : List Watch)
      → (load_reader E read unmarshal ≡ ok us) ↔ (
          (b : String) × (ws : List Watch) × (read ≡ ok b)
          × (unmarshal b ≡ ok ws)
          × Loaded [] ws us)
  load_reader-ok_iff read unmarshal us = (
    λ h.
        let (b, ws, r, u, l) = load_reader-ok read unmarshal us h in
        (b, ws, r, u, load_watches-Loaded [] ws us l),
    λ x.
        let (b, ws, r, u, l) = x in
        load_reader-read read unmarshal b ws r u ∙ Loaded-load_watches l,
  )
