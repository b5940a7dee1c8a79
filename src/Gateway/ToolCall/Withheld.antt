-- ===== src/Gateway/ToolCall/Withheld.antt =====
-- What a caller gets of an upstream's result.
use orbeat_community.Prelude.{
  String, ◌≡◌, ◌⊎◌, refl, inl, inr, true, false, Option, none, some, List, [], ◌∷◌, ◌==◌, eq_iff,
  Bool-cases, Among,
}
use orbeat_community.Govern.{Finding, Scanner, has_blocking, scan_call, direction_result}
use orbeat_community.Govern.Spec.{IsBlocking}
use orbeat_community.Gateway.ToolCall.{
  CallToolResult, blocking_rule, refusal_text, withhold_result, or_empty, withhold_findings,
  intercept_result,
}

-- The rule that a refusal names is that of a blocking finding.
blocking_rule-Among :
    (fs : List Finding)
    → has_blocking fs ≡ true
    → (f : Finding) × Among f fs × IsBlocking f × (f.rule ≡ blocking_rule fs)
unfolding has_blocking blocking_rule
blocking_rule-Among [] h = cc
blocking_rule-Among (f ∷ fs) h = elim (Bool-cases (f.severity == "block")) [
  | inl blocks ↦ (f, inl refl, (eq_iff _ _).0 blocks, rw blocks refl)
  | inr other ↦
      let (g, m, b, same) = blocking_rule-Among fs (rw other at h) in (g, inr m, b, rw other same)
]

module _ (quote : String → String) (marshal : CallToolResult → Option String) where
  abbrev pub scan_result : Scanner → String → CallToolResult → Option (List Finding)
  scan_result sc tool res = scan_call sc (record {
    tool = tool;
    direction = direction_result;
    content = or_empty quote marshal (marshal res);
  })

  -- The result that a refusal leaves, which holds nothing of the upstream's: the refusal's text and
  -- the error flag.
  abbrev pub IsRefusal : String → String → CallToolResult → Type 0
  IsRefusal tool rule res =
      (res.content ≡ refusal_text quote marshal tool rule ∷ [])
      × (res.structured_content ≡ none)
      × (res.meta ≡ none)
      × (res.is_error ≡ true)

  withhold_findings_lem :
      (res : CallToolResult) (tool : String) (scanned : Option (List Finding))
      → let out = (withhold_findings quote marshal res tool scanned).0 in
        ((out ≡ res) × ((fs : List Finding) × (scanned ≡ some fs) × (has_blocking fs ≡ false)))
        ⊎ ((rule : String) × IsRefusal tool rule out
            × (((scanned ≡ none) × (rule ≡ "scan-error"))
                ⊎ ((fs : List Finding) × (f : Finding) × (scanned ≡ some fs)
                    × Among f fs
                    × IsBlocking f
                    × (f.rule ≡ rule))))
  unfolding withhold_findings withhold_result
  withhold_findings_lem res tool none =
      inr ("scan-error", (refl, refl, refl, refl), inl (refl, refl))
  withhold_findings_lem res tool (some fs) = elim (Bool-cases (has_blocking fs)) [
    | inr clean ↦ inl (rw clean refl, (fs, refl, clean))
    | inl blocks ↦
        let (f, m, b, same) = blocking_rule-Among fs blocks in
        inr (blocking_rule fs, rw blocks (refl, refl, refl, refl), inr (fs, f, refl, m, b, same))
  ]

-- With a scanner set, a caller gets the upstream's result only where its scan ran and found
-- nothing that blocks. Otherwise the caller gets a refusal, marked as an error, which holds none of
-- the upstream's content, structured content or metadata, and names the failed scan or the rule of
-- a finding that blocks.
pub intercept_result_lem :
    (quote : String → String) (marshal : CallToolResult → Option String) (sc : Scanner)
    (tool : String) (res : CallToolResult)
    → let out = (intercept_result quote marshal (some sc) tool res).0 in
      let scanned = scan_result quote marshal sc tool res in
      ((out ≡ res) × ((fs : List Finding) × (scanned ≡ some fs) × (has_blocking fs ≡ false)))
      ⊎ ((rule : String) × IsRefusal quote marshal tool rule out
          × (((scanned ≡ none) × (rule ≡ "scan-error"))
              ⊎ ((fs : List Finding) × (f : Finding) × (scanned ≡ some fs)
                  × Among f fs
                  × IsBlocking f
                  × (f.rule ≡ rule))))
unfolding intercept_result
intercept_result_lem quote marshal sc tool res =
    withhold_findings_lem quote marshal res tool (scan_result quote marshal sc tool res)
