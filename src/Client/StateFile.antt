-- ===== src/Client/StateFile.antt =====
-- proctool/bin/client.rs: the state file that freeze writes and thaw reads.
use process_magic.Prelude.{
  ℕ, zero, suc, ◌<◌, ◌≡◌, refl, ◌∙◌, ap, arith, Bool, true, false, List, [], ◌∷◌, ◌++◌, length,
  drop, append-nil, Error, Result, ok, err, leb, ◌==◌, if◌then◌else◌, Bool-cases, inl, inr,
}
use process_magic.Int.{ℤ}
use process_magic.Text.{Text, codes, show_i32}
use process_magic.Host.{Host, open_create, read_file}
use process_magic.Host
use process_magic.Messages.{DaemonMessage}
use process_magic.Cryogenics
use process_magic.Cryogenics.{ProcessState}
use process_magic.Pcontroller.Takeover.{takeover}
use process_magic.Client.{run_freeze, run_thaw}

-- A file after a write at its start: what is longer than the new bytes stays.
abbrev pub overwritten : List ℕ → List ℕ → List ℕ
overwritten old bytes = bytes ++ drop (length bytes) old

-- What the code relies on of open(2) with O_CREAT and without O_TRUNC, of write(2) and of read(2):
-- a file that is there keeps its bytes when it is opened, and one that is not is empty; a write puts
-- bytes in the place of those at the offset, which is the start of the file; a read gives them all.
pub record FileSystem (H : Host) : Type 1 where
  pub content : H.State → Text → List ℕ
  pub IsWritable : Text → Type 0
  pub fd_of : H.State → Text → ℕ
  pub after_open : H.State → Text → H.State
  pub opens :
      (s : H.State) (path : Text)
      → IsWritable path
      → (H.perform (open_create path) s ≡ (ok (fd_of s path), after_open s path))
        × (content (after_open s path) path ≡ content s path)
  pub after_write : H.State → Text → List ℕ → H.State
  pub writes :
      (s : H.State) (path : Text) (bytes : List ℕ)
      → IsWritable path
      → (H.perform (Host.write_all (fd_of s path) bytes) (after_open s path)
          ≡ (ok tt, after_write s path bytes))
        × (content (after_write s path bytes) path
            ≡ overwritten (content (after_open s path) path) bytes)
  pub reads : (s : H.State) (path : Text) → H.perform (read_file path) s ≡ (ok (content s path), s)

-- A JSON object ends with a brace.
abbrev pub ends_with_brace : List ℕ → Bool
ends_with_brace [] = false
ends_with_brace (x ∷ []) = x == b'}'
ends_with_brace (x ∷ y ∷ xs) = ends_with_brace (y ∷ xs)

drop-ends_with_brace :
    (n : ℕ) (xs : List ℕ)
    → n < length xs
    → ends_with_brace xs ≡ true
    → ends_with_brace (drop n xs) ≡ true
drop-ends_with_brace zero xs h e = e
drop-ends_with_brace (suc n) [] h e = absurd (omega arith)
drop-ends_with_brace (suc n) (x ∷ []) h e = absurd (omega arith)
drop-ends_with_brace (suc n) (x ∷ y ∷ xs) h e = drop-ends_with_brace n (y ∷ xs) (omega arith) e

drop_all : (n : ℕ) (xs : List ℕ) → leb (length xs) n ≡ true → drop n xs ≡ []
drop_all zero [] h = refl
drop_all zero (x ∷ xs) h = absurd (ground (arith, h))
drop_all (suc n) [] h = refl
drop_all (suc n) (x ∷ xs) h = drop_all n xs (ground (arith, h))

-- `format!("{}.state", args.pid)`
abbrev pub state_path : ℤ → Text
state_path pid = show_i32 pid ++ codes ".state"

module _ (H : Host) (F : FileSystem H) (message_text : DaemonMessage → Result Text)
    (state_bytes : ProcessState → List ℕ) (read_state : List ℕ → Result ProcessState) where
  open F use {content, IsWritable, after_open, after_write, opens, writes, reads}

  -- the state of the machine behind the write of the file
  abbrev pub saved : ℤ → ProcessState → H.State → H.State
  saved pid state u = after_write u (state_path pid) (state_bytes state)

  run_freeze-saved :
      (root : Text) (pid : ℤ) (s : H.State) (state : ProcessState) (u : H.State)
      → Cryogenics.freeze H pid s ≡ (ok state, u)
      → IsWritable (state_path pid)
      → (run_freeze H message_text state_bytes read_state root pid s
          ≡ takeover H pid (root ++ codes "/bin/risen") false (saved pid state u))
        × (content (saved pid state u) (state_path pid)
            ≡ overwritten (content u (state_path pid)) (state_bytes state))
  unfolding run_freeze
  run_freeze-saved root pid s state u e w =
      let path : Text = state_path pid in
      let (opened, kept) = opens u path w in
      let (written, now) = writes u path (state_bytes state) w in
      (ground (arith, e, opened, written), now ∙ ap (λ c. overwritten c (state_bytes state)) kept)

  -- What a thaw of the file does, by the lengths of the two states
  abbrev pub thawed :
      (e : Error) (old : List ℕ) → ProcessState → H.State → Result (Unit {0}) × H.State
  thawed e old state v =
      if leb (length old) (length (state_bytes state))
      then Cryogenics.thaw H state v
      else (err e, v)

  thaw-overwritten :
      (state : ProcessState) (old : List ℕ) (e : Error) (path : Text) (v : H.State)
      → content v path ≡ overwritten old (state_bytes state)
      → read_state (state_bytes state) ≡ ok state
      → ((tail : List ℕ)
          → ends_with_brace tail ≡ true
          → read_state (state_bytes state ++ tail) ≡ err e)
      → (0 < length old → ends_with_brace old ≡ true)
      → run_thaw H message_text state_bytes read_state path v ≡ thawed e old state v
  unfolding run_thaw
  thaw-overwritten state old e path v now back refused brace =
      elim (Bool-cases (leb (length old) n)) [
        | inl fits ↦
            let whole : read_state (content v path) ≡ ok state =
              ap read_state (now ∙ ap (λ tail. new ++ tail) (drop_all n old fits) ∙ append-nil new)
              ∙ back in
            ground (arith, fits, reads v path, whole)
        | inr longer ↦
            let tail : ends_with_brace (drop n old) ≡ true =
              drop-ends_with_brace n old (ground (arith, longer))
                (brace (ground (arith, longer))) in
            let cut : read_state (content v path) ≡ err e =
              ap read_state now ∙ refused (drop n old) tail in
            ground (arith, longer, reads v path, cut)
      ]
    where
      new : List ℕ
      new = state_bytes state

      n : ℕ
      n = length new

  -- If a freeze returns a state, the file of its pid can be written, the reader of JSON reads the
  -- state back and refuses it with what ends in a brace behind it, and a file that was there ends
  -- in a brace: run_freeze goes on to take the process over when the file holds the bytes of the
  -- state and, behind them, the rest of a longer file that was there; and run_thaw of that file
  -- thaws the state when what was there was no longer than the state, and fails when it was
  -- longer.
  pub run_thaw-run_freeze :
      (root : Text) (pid : ℤ) (s u v : H.State) (state : ProcessState) (e : Error)
      → Cryogenics.freeze H pid s ≡ (ok state, u)
      → IsWritable (state_path pid)
      → content v (state_path pid) ≡ content (saved pid state u) (state_path pid)
      → read_state (state_bytes state) ≡ ok state
      → ((tail : List ℕ)
          → ends_with_brace tail ≡ true
          → read_state (state_bytes state ++ tail) ≡ err e)
      → (0 < length (content u (state_path pid))
          → ends_with_brace (content u (state_path pid)) ≡ true)
      → (run_freeze H message_text state_bytes read_state root pid s
          ≡ takeover H pid (root ++ codes "/bin/risen") false (saved pid state u))
        × (content (saved pid state u) (state_path pid)
            ≡ overwritten (content u (state_path pid)) (state_bytes state))
        × (run_thaw H message_text state_bytes read_state (state_path pid) v
            ≡ thawed e (content u (state_path pid)) state v)
  run_thaw-run_freeze root pid s u v state e frozen w same back refused brace =
      let (goes, now) = run_freeze-saved root pid s state u frozen w in
      (
        goes,
        now,
        thaw-overwritten state (content u (state_path pid)) e (state_path pid) v (same ∙ now) back
            refused brace,
      )
