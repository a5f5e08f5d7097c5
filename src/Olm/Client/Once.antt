-- ===== src/Olm/Client/Once.antt =====
-- A poller that makes one attempt, for concrete inputs.
use operator_sdk.Base.{ℕ, ◌<◌, ◌⊎◌, inl, inr, none, some, ◌≡◌, refl, arith}
use operator_sdk.Errors.{Error, deadline_exceeded}
use operator_sdk.Olm.Client.{Attempt, done, again, stop, Poller, IsPoller}

-- A cluster that is asked once.
abbrev pub once : Poller
once = record {
  poll = λ c. elim (c 0) [ done ↦ none | again ↦ some deadline_exceeded | stop e ↦ some e ];
  context_error = deadline_exceeded;
}

pub once_done :
    (a : Attempt)
    → elim a [ done ↦ none | again ↦ some deadline_exceeded | stop e ↦ some e ] ≡ none
    → a ≡ done
once_done done h = refl
once_done again h = absurd (cc)
once_done (stop e) h = absurd (cc)

Attempt-cases : (a : Attempt) → (a ≡ done) ⊎ ((a ≡ again) ⊎ ((e : Error) × (a ≡ stop e)))
Attempt-cases done = inl refl
Attempt-cases again = inr (inl refl)
Attempt-cases (stop e) = inr (inr (e, refl))

once_stop :
    (c : ℕ → Attempt) (e : Error)
    → once.poll c ≡ some e
    → (e ≡ deadline_exceeded) ⊎ ((n : ℕ) × (c n ≡ stop e) × ((k : ℕ) → k < n → c k ≡ again))
once_stop c e h = elim (Attempt-cases (c 0)) [
  | inl d ↦ absurd (ground (arith, d, h))
  | inr (inl a) ↦ inl (ground (arith, a, h))
  | inr (inr (x, s)) ↦ inr (0, ground (arith, s, h), λ k l. absurd (omega (arith, l)))
]

pub once-IsPoller : IsPoller once
once-IsPoller = record {
  poll_done = λ c h. (0, once_done (c 0) h, λ k l. absurd (omega (arith, l)));
  poll_stop = λ c e h. once_stop c e h;
}
