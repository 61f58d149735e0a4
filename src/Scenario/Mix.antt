-- ===== src/Scenario/Mix.antt =====
-- scenario.go and status.go: the weighted mixes, flattened once and picked from by one draw.
pub mod Order
pub mod Pick
use go_smsc_simulator.Common.{
  ℕ, ◌+◌, ◌%◌, ◌^◌, ltb, ◌==◌, List, [], ◌∷◌, if◌then◌else◌, bytes_eq, bytes_lt, map, Option, none,
  some,
}
use go_smsc_simulator.Smpp.Commands.{
  status_rok, status_throttled, status_submit_fail, status_inv_dst_adr, status_sys_err,
  status_msg_q_ful, status_inv_src_adr,
}
use go_smsc_simulator.Config.Enums.{
  SmppErrorCode, error_code_rok, error_code_rthrottled, error_code_rsubmitfail,
  error_code_rinvdstadr, error_code_rsyserr, error_code_rmsgqful, error_code_rinvsrcadr,
}
use go_smsc_simulator.Config.Schema.{DlrOutcomeWeights, ErrorMix}

unfoldable pub status_for : SmppErrorCode → ℕ
status_for c =
    if bytes_eq c error_code_rok
    then status_rok
    else if bytes_eq c error_code_rthrottled
    then status_throttled
    else if bytes_eq c error_code_rsubmitfail
    then status_submit_fail
    else if bytes_eq c error_code_rinvdstadr
    then status_inv_dst_adr
    else if bytes_eq c error_code_rsyserr
    then status_sys_err
    else if bytes_eq c error_code_rmsgqful
    then status_msg_q_ful
    else if bytes_eq c error_code_rinvsrcadr
    then status_inv_src_adr
    else status_sys_err

pub data DlrOutcome : Type 0 where
  dlr_delivered dlr_failed dlr_expired : DlrOutcome

-- `weightedDLR` and `weightedCode`: an outcome and the running sum of the weights up to it.
pub record Weighted {ℓ} (A : Type ℓ) : Type ℓ where
  pub outcome : A
  pub cum : ℕ

-- The loop of both `build…Mix`: zero weights are dropped, and `cum` is a uint64.
unfoldable pub flatten_weights {ℓ} : {A : Type ℓ} → ℕ → List (A × ℕ) → List (Weighted A)
flatten_weights cum [] = []
flatten_weights cum ((a, w) ∷ rest) =
    let skipped = flatten_weights cum rest in
    let cum' = (cum + w) % 2 ^ 64 in
    let kept = record { outcome = a; cum = cum' } ∷ flatten_weights cum' rest in
    if w == 0 then skipped else kept

unfoldable pub build_dlr_mix : DlrOutcomeWeights → List (Weighted DlrOutcome)
build_dlr_mix w =
    flatten_weights 0
      ((dlr_delivered, w.delivered) ∷ (dlr_failed, w.failed) ∷ (dlr_expired, w.expired) ∷ [])

-- sort.Slice by the code's string; a key of the map occurs once.
unfoldable pub insert_code : SmppErrorCode → List SmppErrorCode → List SmppErrorCode
insert_code c [] = c ∷ []
insert_code c (d ∷ ds) =
    let after = d ∷ insert_code c ds in if bytes_lt c d then c ∷ d ∷ ds else after

unfoldable pub sort_codes : List SmppErrorCode → List SmppErrorCode
sort_codes [] = []
sort_codes (c ∷ cs) = insert_code c (sort_codes cs)

unfoldable pub build_error_mix : ErrorMix → List (Weighted ℕ)
build_error_mix mix =
    flatten_weights 0 (map (λ c. (status_for c, mix.weight c)) (sort_codes mix.keys))

-- The last entry's `cum`, and the scan for the entry that a draw selects.
unfoldable pub total_weight {ℓ} : {A : Type ℓ} → List (Weighted A) → ℕ
total_weight [] = 0
total_weight (w ∷ []) = w.cum
total_weight (w ∷ v ∷ ws) = total_weight (v ∷ ws)

-- `unmatched` is the answer after the loop, which no draw below the total reaches.
unfoldable pub select {ℓ} : {A : Type ℓ} → A → List (Weighted A) → ℕ → A
select unmatched [] n = unmatched
select unmatched (w ∷ ws) n =
    let rest = select w.outcome ws n in if ltb n w.cum then w.outcome else rest
