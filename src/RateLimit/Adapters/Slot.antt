-- ===== src/RateLimit/Adapters/Slot.antt =====
-- The slot that a metered MCP call takes and gives back.
use orbeat_community.Prelude.{
  ℕ, ◌≤◌, ◌<◌, String, ◌≡◌, refl, ap, ◌∙◌, ◌≢◌, ◌⊎◌, Bool, true, false, Option, none, some, ◌==◌,
  ltb, eqb, arith, Bool-cases, inl, inr, eq_iff,
}
use orbeat_community.RateLimit.Concurrency.{ConcurrencyLimiter, acquire_at, in_flight}
use orbeat_community.RateLimit.Concurrency.Slots.{acquire_at_lem, in_flight-release}
use orbeat_community.RateLimit.Adapters.{Reply, passed, capped, pass, metered, mcp_concurrency}

module _ {A : Type 0} (next : ConcurrencyLimiter → A × ConcurrencyLimiter) where
  -- What the reply of a metered call tells: a result is the handler's, and there was room below the
  -- cap or no cap; a refusal reports the cap and a count that has reached it.
  abbrev pub Explains : ConcurrencyLimiter → String → ℕ → Reply A → Type 0
  Explains c key now (passed a) =
      (a ≡ (next (acquire_at c key now true).1).0) × ((c.max ≡ 0) ⊎ (in_flight c key < c.max))
  Explains c key now (capped limit n) =
      (limit ≡ c.max) × (n ≡ in_flight c key) × (0 < limit) × (limit ≤ n)

  -- The same of a call by method, whether or not a key is derived: only a call of the metered method
  -- with a key is metered, and every other gets the handler's result.
  abbrev pub Answers : ConcurrencyLimiter → String → String → Option String → ℕ → Reply A → Type 0
  Answers c method m none now r = r ≡ passed (next c).0
  Answers c method m (some key) now r =
      ((m ≢ method) × (r ≡ passed (next c).0)) ⊎ ((m ≡ method) × Explains c key now r)

  acquire_at-disabled :
      (c : ConcurrencyLimiter) (key : String) (now : ℕ) (sample : Bool)
      → ltb 0 c.max ≡ false
      → (acquire_at c key now sample).0.ok ≡ true × ((acquire_at c key now sample).1 ≡ c)
  unfolding acquire_at
  acquire_at-disabled c key now sample off = elim (Bool-cases (eqb c.max 0)) [
    | inl none_ ↦ rw none_ (refl, refl)
    | inr some_ ↦ absurd (ground arith)
  ]

  max-acquire_at :
      (c : ConcurrencyLimiter) (key : String) (now : ℕ) (sample : Bool)
      → (acquire_at c key now sample).1.max ≡ c.max
  unfolding acquire_at
  max-acquire_at c key now sample = ground arith

  -- A handler that leaves every count as it finds it makes a metered call that does so too: the
  -- slot that the call takes is given back. The reply is the handler's, or it reports the cap and a
  -- count that has reached it.
  metered_lem :
      (c : ConcurrencyLimiter) (key : String) (now later : ℕ)
      → ((c' : ConcurrencyLimiter) (k : String) → in_flight (next c').1 k ≡ in_flight c' k)
      → ((k : String) → in_flight (metered next c key now later).1 k ≡ in_flight c k)
        × Explains c key now (metered next c key now later).0
  unfolding metered pass
  metered_lem c key now later fair =
      let (a, c') = acquire_at c key now true in
      let c'' = (next c').1 in
      elim (Bool-cases (ltb 0 c.max)) [
        | inr off ↦
            let (ok, same) = acquire_at-disabled c key now true off in
            rw (ok, off) (λ k. fair c' k ∙ ap (λ x. in_flight x k) same, (refl, inl (ground arith)))
        | inl on ↦
            let pos : 0 < c.max = ground arith in
            let effect = λ (k : String). acquire_at_lem c key k now true pos in
            elim (Bool-cases a.ok) [
              | inl ok ↦
                  rw (ok, on)
                    (
                      λ k. ground (arith, in_flight-release c'' key k later, fair c' k, effect k),
                      (refl, inr (ground (arith, effect key))),
                    )
              | inr denied ↦ rw denied (
                λ k. ground (arith, effect k),
                (
                  max-acquire_at c key now true,
                  ground (arith, effect key),
                  rw (max-acquire_at c key now true) pos,
                  ground (arith, effect key, max-acquire_at c key now true),
                ),
              )
            ]
      ]

-- A handler that leaves every in-flight count as it finds it, wrapped by MCPConcurrency, still does
-- so, whatever the method and whether or not a key is derived: no slot leaks. A call without a key or
-- of another method is never refused and gets the handler's result. A metered call gets the result
-- of the handler, run with the slot taken, only where its key's count was below the cap or there is
-- no cap; and where it is refused, there is a cap, the count has reached it, and both are reported.
pub mcp_concurrency_lem :
    {A : Type 0} (next : ConcurrencyLimiter → A × ConcurrencyLimiter) (c : ConcurrencyLimiter)
    (method m : String) (key : Option String) (now later : ℕ)
    → ((c' : ConcurrencyLimiter) (k : String) → in_flight (next c').1 k ≡ in_flight c' k)
    → let r = mcp_concurrency next c method m key now later in
      ((k : String) → in_flight r.1 k ≡ in_flight c k) × Answers next c method m key now r.0
unfolding mcp_concurrency pass
mcp_concurrency_lem next c method m none now later fair = (λ k. fair c k, refl)
mcp_concurrency_lem next c method m (some key) now later fair = elim (Bool-cases (m == method)) [
  | inr other ↦ rw other (λ k. fair c k, inl (ground (arith, eq_iff m method), refl))
  | inl same ↦
      let (kept, why) = metered_lem next c key now later fair in
      rw same (kept, inr ((eq_iff m method).0 same, why))
]
