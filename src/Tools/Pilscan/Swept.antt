-- ===== src/Tools/Pilscan/Swept.antt =====
-- pilscan/main.go: a scan that passes has looked at every block of every channel.
use fabric_hris.Prelude.{
  ℕ, zero, suc, Text, Bytes, ◌≡◌, inl, inr, refl, sym, ap, ◌∙◌, Bool, true, ◌&&◌, some, List, [],
  ◌∷◌, arith,
}
use fabric_hris.Errors.{Result, ok, err, Result-cases}
use fabric_hris.Exec.{and_then-ok}
use fabric_hris.Keystore.Decimal.{decimal}
use fabric_hris.Tools.Shell.{Docker}
use fabric_hris.Tools.Pilscan.Findings.{Finding, ChannelStats, new_stats, decoded}
use fabric_hris.Tools.Pilscan.Checks.{Json, scan_raw_backstop}
use fabric_hris.Tools.Pilscan.Block.{
  Block, Protos, block_counted, check_envelope, scan_block, parse_block,
}
use fabric_hris.Tools.Pilscan.Channel.{
  fetch_block, scan_fetched, scan_number, scan_numbers, newest_number, scan_from, scan_channel,
  Sweep, sweep_channel, sweep_channels, scan, channels, passes, exit_code, no_findings,
}
use fabric_hris.Tools.Pilscan.Walk.{check_envelope-KeepsFindings}
use fabric_hris.Tools.Pilscan.Quiet.{
  Quiet, NoFixture, for_each-KeepsFindings, scan_raw_backstop-Quiet,
}

no_findings-nil : (fs : List Finding) → no_findings fs ≡ true → fs ≡ []
unfolding no_findings
no_findings-nil [] e = refl
no_findings-nil (f ∷ fs) e = absurd (ground arith)

and-true : (a b : Bool) → (a && b) ≡ true → (a ≡ true) × (b ≡ true)
and-true a b e = (ground arith, ground arith)

exit_code-0 : (sweep : Sweep) → exit_code sweep ≡ 0 → sweep.overall_pass ≡ true
exit_code-0 sweep e = ground arith

module _ {D : Type 0} (docker : Docker D) (json : Json) (p : Protos) (channel : Text) where
  -- A block in which the scan found nothing has no string of the dictionary among its bytes.
  scan_block-Quiet :
      (b : Block) (raw : Bytes) (s : ChannelStats)
      → Quiet (scan_block json p b raw s)
      → NoFixture raw × Quiet s
  unfolding scan_block
  scan_block-Quiet b raw s e = (scan_raw_backstop-Quiet b.number raw (block_counted b s)).0 (
      for_each-KeepsFindings (check_envelope json p b.number)
        (check_envelope-KeepsFindings json p b.number) b.envelopes
        (scan_raw_backstop b.number raw (block_counted b s)) e)

  -- Blocks `n` to `n + left - 1` were fetched one after another, each decoded, and none has a
  -- string of the dictionary among its bytes.
  abbrev pub SweptFrom : ℕ → ℕ → D → D → Type 0
  SweptFrom zero n d d' = d ≡ d'
  SweptFrom (suc left) n d d' =
      (raw : Bytes) × (b : Block) × (next : D) × (fetch_block docker json p channel (decimal n) d
        ≡ (ok raw, next))
      × (p.block raw ≡ ok b)
      × NoFixture raw
      × SweptFrom left (suc n) next d'

  scan_fetched-ok :
      (n : ℕ) (fetched : Result Bytes × D) (stats stats' : ChannelStats) (d' : D)
      → scan_fetched docker json p n fetched stats ≡ (ok tt, (stats', d'))
      → Quiet stats'
      → (raw : Bytes) × (b : Block) × (fetched ≡ (ok raw, d'))
        × (p.block raw ≡ ok b)
        × NoFixture raw
        × Quiet stats
  unfolding scan_fetched parse_block
  scan_fetched-ok n (err e, d) stats stats' d' run quiet = absurd (ground arith)
  scan_fetched-ok n (ok raw, d) stats stats' d' run quiet = elim (Result-cases (p.block raw)) [
    | inr (e, f) ↦ absurd (ground arith)
    | inl (b, f) ↦
        let same : scan_block json p b raw stats ≡ stats' = ground arith in
        let (clean, before) = scan_block-Quiet b raw stats (ap (λ s. s.findings) same ∙ quiet) in
        (raw, b, ground arith, f, clean, before)
  ]

  scan_numbers-ok :
      (left n : ℕ) (stats stats' : ChannelStats) (d d' : D)
      → scan_numbers docker json p channel left n (stats, d) ≡ (ok tt, (stats', d'))
      → Quiet stats'
      → SweptFrom left n d d' × Quiet stats
  unfolding scan_numbers scan_number
  scan_numbers-ok zero n stats stats' d d' run quiet =
      (ap (λ r. r.1.1) run, ap (λ r. r.1.0.findings) run ∙ quiet)
  scan_numbers-ok (suc left) n stats stats' d d' run quiet =
      let (u, (s1, d1), here, rest) =
        and_then-ok (scan_number docker json p channel n (stats, d))
          (λ u. scan_numbers docker json p channel left (suc n)) tt (stats', d') run in
      let (swept, quiet') = scan_numbers-ok left (suc n) s1 stats' d1 d' rest quiet in
      let (raw, b, fetched, decoded, clean, before) =
        scan_fetched-ok n (fetch_block docker json p channel (decimal n) d) stats s1 d1 here
          quiet' in
      ((raw, b, d1, fetched, decoded, clean, swept), before)

module _ {D : Type 0} (docker : Docker D) (json : Json) (p : Protos) where
  -- The channels one after another: the newest block's number is asked for, and every block from 0
  -- to that number was fetched, decoded and free of the dictionary's strings.
  abbrev pub SweptAll : List Text → D → D → Type 0
  SweptAll [] d d' = d ≡ d'
  SweptAll (channel ∷ rest) d d' =
      (height : ℕ) × (d1 d2 : D) × (newest_number docker json p channel d ≡ (ok height, d1))
      × SweptFrom docker json p channel (suc height) 0 d1 d2
      × SweptAll rest d2 d'

  scan_from-passes :
      (channel : Text) (newest : Result ℕ × D)
      → passes (scan_from docker json p channel newest).0 ≡ true
      → (height : ℕ) × (d1 : D) × (newest ≡ (ok height, d1))
        × SweptFrom docker json p channel
            (suc height)
            0
            d1
            (scan_from docker json p channel newest).1
  unfolding scan_from passes
  scan_from-passes channel (err e, d) pass = absurd (ground arith)
  scan_from-passes channel (ok height, d) pass =
      let run = scan_numbers docker json p channel (suc height) 0 (new_stats channel, d) in
      elim (Result-cases run.0) [
        | inr (e, f) ↦ absurd (ground (arith, ap (λ r. passes (some run.1.0, r)) f))
        | inl (u, f) ↦
            let quiet =
              no_findings-nil run.1.0.findings
                (sym (ap (λ r. passes (some run.1.0, r)) f) ∙ pass) in
            let (swept, start) =
              scan_numbers-ok docker json p channel (suc height) 0 (new_stats channel) run.1.0 d
                run.1.1 (λ t. (f t, run.1)) quiet in
            (height, d, refl, swept)
      ]

  sweep_channels-pass :
      (cs : List Text) (sweep : Sweep) (d : D)
      → (sweep_channels docker json p cs (sweep, d)).0.overall_pass ≡ true
      → (sweep.overall_pass ≡ true) × SweptAll cs d (sweep_channels docker json p cs (sweep, d)).1
  unfolding sweep_channels sweep_channel scan_channel
  sweep_channels-pass [] sweep d pass = (pass, refl)
  sweep_channels-pass (channel ∷ cs) sweep d pass =
      let (before, swept) =
        sweep_channels-pass cs (sweep_channel docker json p channel (sweep, d)).0
          (sweep_channel docker json p channel (sweep, d)).1 pass in
      let (passed, good) =
        and-true sweep.overall_pass (passes (scan_channel docker json p channel d).0) before in
      let (height, d1, found, here) =
        scan_from-passes channel (newest_number docker json p channel d) good in
      (passed, (height, d1, (scan_channel docker json p channel d).1, found, here, swept))

  -- A run that passes: for each of the two tenant channels in turn, the newest block's number was
  -- found, and every block from 0 to that number was fetched and decoded, and none of them has a
  -- string of the dictionary anywhere among its bytes.
  pub scan-pass :
      (d : D)
      → exit_code (scan docker json p d).0 ≡ 0
      → SweptAll channels d (scan docker json p d).1
  unfolding scan
  scan-pass d pass =
      (sweep_channels-pass channels (record { all_stats = []; overall_pass = true }) d
        (exit_code-0 (scan docker json p d).0 pass)).1
