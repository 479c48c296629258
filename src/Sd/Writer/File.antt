-- ===== src/Sd/Writer/File.antt =====
-- The file of the writer of components/sd-card-logging/logger.c: when it is open, and what is
-- written to it.
use gate_lock_home_node.Base.{
  ℕ, ◌≡◌, ◌≢◌, ◌⊎◌, inl, inr, sym, ◌∙◌, ◌==◌, Bool, true, false, Bool-cases, Option-cases, Option,
  none, some, List, [], ◌∷◌, ◌++◌, append_assoc, append-nil, arith, cstr, length, if◌then◌else◌,
}
use gate_lock_home_node.Sd.Types.{
  Card, Call, fopen, fwrite, fflush, fclose, snapshot_take, snapshot_read, made,
}
use gate_lock_home_node.Sd.Writer.{Read, RoundEnv, write_logs, write_timestamp, sd_log_round}

-- What a call does to the file, from whether it is open: `none` is a use of a closed file, or a
-- second `fopen` that loses the first.
abbrev pub file_step : Call → Bool → Option Bool
file_step (fopen opened) false = some opened
file_step (fopen opened) true = none
file_step (fwrite bytes n) true = some true
file_step (fwrite bytes n) false = none
file_step fflush true = some true
file_step fflush false = none
file_step fclose true = some false
file_step fclose false = none
file_step _ is_open = some is_open

abbrev pub then_step : Call → Option Bool → Option Bool
then_step c none = none
then_step c (some is_open) = file_step c is_open

-- The state of the file after the calls.
unfoldable pub file_state : List Call → Option Bool
file_state [] = some false
file_state (c ∷ cs) = then_step c (file_state cs)

-- The bytes that were handed to `fwrite`, oldest first.
unfoldable pub handed : List Call → List ℕ
handed [] = []
handed (fwrite bytes n ∷ cs) = handed cs ++ bytes
handed (_ ∷ cs) = handed cs

write_logs-closed :
    (rs : List Read) (s t : Card)
    → file_state s.calls ≡ some true
    → write_logs rs s ≡ some t
    → file_state t.calls ≡ some false
unfolding write_logs file_state
write_logs-closed [] s t o h = cc
write_logs-closed (r ∷ rs) s t o h =
    let u : Card = made (fwrite r.bytes r.written) (made snapshot_read s) in
    ground (arith, write_logs-closed rs u t)

write_timestamp-open :
    (env : RoundEnv) (stamp : Option (List ℕ)) (s : Card)
    → file_state s.calls ≡ some true
    → file_state (write_timestamp env stamp s).calls ≡ some true
unfolding write_timestamp file_state
write_timestamp-open env none s h = ground arith
write_timestamp-open env (some text) s h = ground arith

-- A round that begins with the file closed, and ends, leaves it closed, and uses it only while it
-- is open, whichever write fails and whether or not it opens.
pub sd_log_round-closed :
    (env : RoundEnv) (s t : Card)
    → file_state s.calls ≡ some false
    → sd_log_round env s ≡ some t
    → file_state t.calls ≡ some false
unfolding sd_log_round file_state
sd_log_round-closed env s t o h =
    let opened : Card = made (fopen env.opened) s in
    let stamped : Card = made snapshot_take (write_timestamp env env.timestamp opened) in
    elim (Bool-cases env.opened) [
      | inr shut ↦ ground arith
      | inl ready ↦ elim (Option-cases (write_logs env.reads stamped)) [
        | inl e ↦ absurd (ground arith)
        | inr (u, e) ↦ ground (
          arith,
          write_timestamp-open env env.timestamp opened,
          write_logs-closed env.reads stamped u,
        )
      ]
    ]

-- The reads up to the first that is empty, or that the file does not take whole, which is included.
unfoldable pub logged : List Read → List ℕ
logged [] = []
logged (r ∷ rs) =
    let rest = logged rs in
    if length r.bytes == 0
    then []
    else if r.written == length r.bytes
    then r.bytes ++ rest
    else r.bytes

-- The line with the time, if the time is known.
abbrev pub stamp_line : Option (List ℕ) → List ℕ
stamp_line none = []
stamp_line (some text) = cstr text ++ b'\n' ∷ []

write_logs-handed :
    (rs : List Read) (s t : Card)
    → write_logs rs s ≡ some t
    → handed t.calls ≡ handed s.calls ++ logged rs
unfolding write_logs handed logged
write_logs-handed [] s t h = cc
write_logs-handed (r ∷ rs) s t h =
    let u : Card = made (fwrite r.bytes r.written) (made snapshot_read s) in
    ground (
      arith,
      write_logs-handed rs u t,
      append_assoc (handed s.calls) r.bytes (logged rs),
      append-nil (handed s.calls),
    )

write_timestamp-handed :
    (env : RoundEnv) (stamp : Option (List ℕ)) (s : Card)
    → handed (write_timestamp env stamp s).calls ≡ handed s.calls ++ stamp_line stamp
unfolding write_timestamp handed
write_timestamp-handed env none s = sym (append-nil (handed s.calls))
write_timestamp-handed env (some text) s = append_assoc (handed s.calls) (cstr text) (b'\n' ∷ [])

-- A round whose file opens, and that ends, hands to `fwrite` the line with the time, if it is known,
-- and then the reads of the log in their order, up to the first that is empty or is not written
-- whole; and nothing else.
pub sd_log_round-handed :
    (env : RoundEnv) (s t : Card)
    → env.opened ≡ true
    → sd_log_round env s ≡ some t
    → handed t.calls ≡ handed s.calls ++ (stamp_line env.timestamp ++ logged env.reads)
unfolding sd_log_round handed
sd_log_round-handed env s t ready h =
    let opened : Card = made (fopen env.opened) s in
    let stamped : Card = made snapshot_take (write_timestamp env env.timestamp opened) in
    elim (Option-cases (write_logs env.reads stamped)) [
      | inl e ↦ absurd (ground arith)
      | inr (u, e) ↦ ground (
        arith,
        write_timestamp-handed env env.timestamp opened,
        write_logs-handed env.reads stamped u,
        append_assoc (handed s.calls) (stamp_line env.timestamp) (logged env.reads),
      )
    ]

-- Answers with an end: a read that is empty, or one that is not written whole.
abbrev pub LogEnds : List Read → Type 0
LogEnds [] = ⊥
LogEnds (r ∷ rs) = ((r.bytes ≡ []) ⊎ (r.written ≢ length r.bytes)) ⊎ LogEnds rs

write_logs_terminates : (rs : List Read) (s : Card) → LogEnds rs → write_logs rs s ≢ none
unfolding write_logs
write_logs_terminates [] s h = absurd h
write_logs_terminates (r ∷ rs) s (inl h) = ground arith
write_logs_terminates (r ∷ rs) s (inr h) =
    ground
      (arith, write_logs_terminates rs (made (fwrite r.bytes r.written) (made snapshot_read s)) h)

sd_log_round_returns : (env : RoundEnv) (s : Card) → LogEnds env.reads → sd_log_round env s ≢ none
unfolding sd_log_round
sd_log_round_returns env s h =
    let opened : Card = made (fopen env.opened) s in
    ground (
      arith,
      write_logs_terminates env.reads
          (made snapshot_take (write_timestamp env env.timestamp opened)) h,
    )

sd_log_round-unopened :
    (env : RoundEnv) (s t : Card)
    → env.opened ≡ false
    → sd_log_round env s ≡ some t
    → handed t.calls ≡ handed s.calls
unfolding sd_log_round handed
sd_log_round-unopened env s t shut h = ground arith

-- If one of the reads of the log is empty or is not written whole, a round ends; and when it ends it
-- has handed to `fwrite`, if the file opened, the line with the time, if it is known, and the reads
-- up to the first that is empty or is not written whole, and else nothing.
pub sd_log_round_terminates :
    (env : RoundEnv) (s : Card)
    → LogEnds env.reads
    → (t : Card) × (sd_log_round env s ≡ some t)
      × (handed t.calls
          ≡ handed s.calls
            ++ (if env.opened then stamp_line env.timestamp ++ logged env.reads else []))
sd_log_round_terminates env s h = elim (Option-cases (sd_log_round env s)) [
  | inl e ↦ absurd (sd_log_round_returns env s h e)
  | inr (t, e) ↦ elim (Bool-cases env.opened) [
    | inl ready ↦ (t, e, rw ready (sd_log_round-handed env s t ready e))
    | inr shut ↦
        (t, e, rw shut (sd_log_round-unopened env s t shut e ∙ sym (append-nil (handed s.calls))))
  ]
]
