-- ===== src/Api/Pins/Clamp.antt =====
-- What revision is served for a pin, and what the caller is told.
use orbeat_community.Prelude.{
  ℕ, ◌≤◌, ◌<◌, ◌≡◌, ◌⊎◌, ◌↔◌, refl, inl, inr, ltb, leb, eqb, Bool-cases, false, max, min, arith,
}
use orbeat_community.Api.Pins.{
  override_ahead, override_floor, override_pruned, override_reason, pin_resolve,
}

-- For a pin of at least 1. A revision is servable from the greater of the floor and the oldest
-- survivor, which is what the result calls the oldest, to the newest. Where some revision is
-- servable, the one served is too, and no servable n lies closer to the pin: it is at least as far
-- from it, on the same side, so a pin that is servable itself is served exactly. Where none is, as
-- with a floor above every survivor, the newest is served.
pub pin_resolve-Closest :
    (pin floor min_num max_num n : ℕ)
    → 1 ≤ pin
    → let r = pin_resolve pin floor min_num max_num in
      (r.oldest ≡ max floor min_num)
      × (((max_num < r.oldest) × (r.served ≡ max_num))
          ⊎ ((r.oldest ≤ r.served)
              × (r.served ≤ max_num)
              × ((n < r.oldest)
                  ⊎ ((max_num < n)
                      ⊎ (((pin ≤ r.served) × (r.served ≤ n))
                          ⊎ ((n ≤ r.served) × (r.served ≤ pin)))))))
unfolding pin_resolve
pin_resolve-Closest pin floor min_num max_num n pos = ground arith

-- The reason given for a pin, where some revision is servable, is true: there is none exactly
-- where the pin itself is served; "ahead" is a pin past the newest revision; "floor" is a pin below
-- a floor that lies above the oldest survivor; "pruned" is a pin below an oldest survivor that the
-- floor does not exceed. No other reason is given.
pub pin_resolve-Reason :
    (pin floor min_num max_num : ℕ)
    → max floor min_num ≤ max_num
    → 1 ≤ pin
    → let r = pin_resolve pin floor min_num max_num in
      ((r.reason ≡ "") × (r.served ≡ pin))
      ⊎ (((r.reason ≡ override_ahead) × (max_num < pin) × (r.served ≡ max_num))
          ⊎ (((r.reason ≡ override_floor) × (pin < floor) × (min_num < floor) × (r.served ≡ floor))
              ⊎ ((r.reason ≡ override_pruned)
                  × (pin < min_num)
                  × (floor ≤ min_num)
                  × (r.served ≡ min_num))))
unfolding pin_resolve override_reason
pin_resolve-Reason pin floor min_num max_num h pos = ground arith

override_reason_iff :
    (served pin floor min_num max_num : ℕ)
    → (override_reason served pin floor min_num max_num ≡ "") ↔ (served ≡ pin)
unfolding override_reason
override_reason_iff served pin floor min_num max_num = elim (Bool-cases (eqb served pin)) [
  | inl same ↦ rw same (λ e. ground arith, λ e. refl)
  | inr other ↦ elim (Bool-cases (ltb max_num pin)) [
    | inl ahead ↦ rw (other, ahead) (λ e. cc, λ e. ground arith)
    | inr reached ↦ elim (Bool-cases (ltb min_num floor)) [
      | inl floored ↦ rw (other, reached, floored) (λ e. cc, λ e. ground arith)
      | inr pruned ↦ rw (other, reached, pruned) (λ e. cc, λ e. ground arith)
    ]
  ]
]

-- The same reason, whether or not some revision is servable.
pub pin_resolve-reason_iff :
    (pin floor min_num max_num : ℕ)
    → 1 ≤ pin
    → let r = pin_resolve pin floor min_num max_num in
      ((r.reason ≡ "") ↔ (r.served ≡ pin))
      × (r.served ≤ max_num)
      × ((r.served ≡ max_num) ⊎ (pin < max_num))
unfolding pin_resolve
pin_resolve-reason_iff pin floor min_num max_num pos =
    let present : leb pin 0 ≡ false = ground arith in
    let served = min (max pin (max floor min_num)) max_num in
    rw present (override_reason_iff served pin floor min_num max_num, ground arith, ground arith)
