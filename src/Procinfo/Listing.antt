-- ===== src/Procinfo/Listing.antt =====
-- proctool/procinfo.rs: the commands over the processes of /proc. What a command prints is the list
-- of its lines, in the order of the program's collections; a `HashMap` is an association list.
pub mod Groups
pub mod Terminal
pub mod Ancestors
use process_magic.Prelude.{
  ℕ, zero, suc, ◌+◌, Bool, true, false, not, List, [], ◌∷◌, ◌++◌, Option, none, some, Error,
  message, Result, ok, err, panic, unfinished, unwrap, length, ◌==◌, if◌then◌else◌,
}
use mathlib.Core.List.{reverse}
use process_magic.Int.{ℤ, pos, negsuc, int_eq}
use process_magic.Text.{Text, codes, text_eq, parse_i32, show_i32}
use process_magic.Utf8.{from_utf8}
use process_magic.Myprocfs.Files.{proc_path}
use process_magic.Myprocfs.Lines.{lines, line_text}
use process_magic.Host.{
  Host, DirEntry, open_read, read_file, read_dir, getsid, getuid, open_fd, read_only, close,
  tcgetpgrp, tcgetsid,
}
use process_magic.Host.Action.{Action, pure, from, fail, ◌>>=◌, ◌>>◌}
use process_magic.Procinfo.{ProcessInfo, read_attributes, stat_tty_nr, process_info, expect}

-- `line_result.unwrap()` for the lines of a file
unfoldable pub text_lines : List (List ℕ) → Result (List Text)
text_lines [] = ok []
text_lines (bytes ∷ rest) = elim (line_text bytes) [
  | ok line ↦ elim (text_lines rest) [
    | ok lines ↦ ok (line ∷ lines)
    | err e ↦ err e
    | panic ↦ panic
    | unfinished ↦ unfinished
  ]
  | _ ↦ panic
]

-- A `HashMap<i32, Vec<A>>`: the processes of a group, and the insertion that both maps of the file use.
module _ {A : Type 0} where
  unfoldable pub push_at : ℤ → A → List (ℤ × List A) → List (ℤ × List A)
  push_at key a [] = (key, a ∷ []) ∷ []
  push_at key a ((k, v) ∷ groups) =
      if int_eq k key then (k, v ++ (a ∷ [])) ∷ groups else (k, v) ∷ push_at key a groups

-- The loop of `get_all_groups`
unfoldable pub group_by_pid :
    List ProcessInfo → List (ℤ × List ProcessInfo) → List (ℤ × List ProcessInfo)
unfolding push_at
group_by_pid [] groups = groups
group_by_pid (info ∷ infos) groups = group_by_pid infos (push_at info.pid info groups)

-- The loop of `get_session_id_for_terminal`
unfoldable pub find_terminal : Text → List ProcessInfo → Option ℤ
find_terminal path [] = none
find_terminal path (info ∷ infos) = elim info.tty [
  | none ↦ find_terminal path infos
  | some tty ↦ if text_eq path tty then some info.pid else find_terminal path infos
]

-- A line of `print_process_tree`
pub record TreeLine : Type 0 where
  pub indent : ℕ
  pub info : ProcessInfo
  pub leader : Bool
  pub session : ℤ

module _ (H : Host) where
  read_text : Text → Action H.State Text
  read_text path = do bytes ← H.perform (read_file path); from (line_text bytes)

  unfoldable pub read_proc_stat : ℤ → Action H.State ℤ
  unfolding read_text
  read_proc_stat pid = do s ← read_text (proc_path pid (codes "stat")); from (stat_tty_nr s)

  -- `r.unwrap()` for a call that fails
  unfoldable pub or_panic : {A : Type 0} → Action H.State A → Action H.State A
  or_panic m s = ended (m s)
    where
      ended : {A : Type 0} → Result A × H.State → Result A × H.State
      ended (err e, t) = (panic, t)
      ended (r, t) = (r, t)

  unfoldable pub get_process_info : ℤ → Action H.State ProcessInfo
  unfolding read_proc_stat or_panic
  get_process_info pid = do
    H.perform (open_read (proc_path pid (codes "status")))
    bytes ← or_panic (H.perform (read_file (proc_path pid (codes "status"))))
    status ← from (text_lines (lines bytes))
    attributes ← from (read_attributes status [])
    tty_nr ← read_proc_stat pid
    from (process_info pid attributes tty_nr)

  -- `if let Ok(info) = …`: a process that cannot be read is left out; a panic is not.
  unfoldable pub info_if_ok : ℤ → Action H.State (List ProcessInfo)
  info_if_ok pid s =
      let (r, s') = get_process_info pid s in
      elim r [
        | ok info ↦ (ok (info ∷ []), s')
        | err e ↦ (ok [], s')
        | panic ↦ (panic, s')
        | unfinished ↦ (unfinished, s')
      ]

  -- A round of the loop over /proc: what an entry adds.
  unfoldable pub entry_info : DirEntry → Action H.State (List ProcessInfo)
  entry_info entry = if not entry.is_dir then pure [] else elim entry.file_name [
    | none ↦ pure []
    | some name ↦ elim (parse_i32 name) [ ok pid ↦ info_if_ok pid | _ ↦ pure [] ]
  ]

  unfoldable pub collect_infos :
      List (Result DirEntry) → List ProcessInfo → Action H.State (List ProcessInfo)
  collect_infos [] r = pure r
  collect_infos (entry_result ∷ entries) r = do
    entry ← from entry_result
    infos ← entry_info entry
    collect_infos entries (r ++ infos)

  unfoldable pub get_all_process_info : Action H.State (List ProcessInfo)
  unfolding collect_infos
  get_all_process_info = do entries ← H.perform (read_dir (codes "/proc")); collect_infos entries []

  unfoldable pub get_all_groups : Action H.State (List (ℤ × List ProcessInfo))
  unfolding group_by_pid
  get_all_groups = do infos ← get_all_process_info; pure (group_by_pid infos [])

  unfoldable pub get_session_id_for_terminal : Text → Action H.State ℤ
  unfolding find_terminal
  get_session_id_for_terminal path = do
    infos ← get_all_process_info
    elim (find_terminal path infos) [ none ↦ fail "not found" [] | some pid ↦ pure pid ]

  -- The processes from `pid` up to the root, in the order in which they are pushed.
  unfoldable pub ancestors : ℕ → ℤ → Action H.State (List ProcessInfo)
  ancestors zero pid = from unfinished
  ancestors (suc fuel) pid = elim (int_eq pid (pos 0)) [
    | true ↦ pure []
    | false ↦ do info ← get_process_info pid; above ← ancestors fuel info.ppid; pure (info ∷ above)
  ]

  unfoldable pub tree_lines : ℕ → List ProcessInfo → Action H.State (List TreeLine)
  tree_lines indent [] = pure []
  tree_lines indent (info ∷ infos) = do
    sid ← H.perform (getsid info.pid)
    below ← tree_lines (indent + 2) infos
    pure (
        record { indent = indent; info = info; leader = int_eq info.pid info.pgid; session = sid }
        ∷ below)

  unfoldable pub print_process_tree : ℤ → Action H.State (List TreeLine)
  unfolding ancestors tree_lines
  print_process_tree pid = do stack ← ancestors H.fuel pid; tree_lines 0 (reverse stack)

  -- The lines of `print_process_groups`: the group and the number of its processes
  unfoldable pub print_process_groups : Action H.State (List (ℤ × ℕ))
  unfolding get_all_groups
  print_process_groups = do groups ← get_all_groups; pure (sizes groups)
    where
      sizes : List (ℤ × List ProcessInfo) → List (ℤ × ℕ)
      sizes [] = []
      sizes ((gid, processes) ∷ groups) = (gid, length processes) ∷ sizes groups

  -- The loop of `print_sessions`: a process whose session cannot be had is left out.
  unfoldable pub group_sessions :
      List (ℤ × List ProcessInfo) → List (ℤ × List ℤ) → Action H.State (List (ℤ × List ℤ))
  unfolding push_at
  group_sessions [] sessions s = (ok sessions, s)
  group_sessions ((process_leader_id, _) ∷ groups) sessions s =
      let (r, s') = H.perform (getsid process_leader_id) s in
      group_sessions groups (with_session r) s'
    where
      with_session : Result ℤ → List (ℤ × List ℤ)
      with_session (ok sid) = push_at sid process_leader_id sessions
      with_session _ = sessions

  unfoldable pub print_sessions : Action H.State (List (ℤ × List ℤ))
  unfolding group_sessions
  print_sessions = do groups ← get_all_groups; group_sessions groups []

  -- The processes of the user who runs the program, by pid and name.
  unfoldable pub list_processes : Action H.State (List (ℤ × Text))
  list_processes = do uid ← H.perform getuid; infos ← get_all_process_info; pure (own uid infos)
    where
      own : ℕ → List ProcessInfo → List (ℤ × Text)
      own uid [] = []
      own uid (info ∷ infos) =
          let rest = own uid infos in if info.uid == uid then (info.pid, info.name) ∷ rest else rest

  -- A call of libc itself: -1 for an error
  unfoldable pub or_minus_one : Action H.State ℤ → Action H.State ℤ
  or_minus_one m s = ended (m s)
    where
      ended : Result ℤ × H.State → Result ℤ × H.State
      ended (err e, t) = (ok (negsuc 0), t)
      ended (r, t) = (r, t)

  -- The loop of `list_terminals`: a terminal with its session and its foreground process group.
  unfoldable pub terminal_lines : List (Result DirEntry) → Action H.State (List (Text × ℤ × ℤ))
  unfolding or_minus_one
  terminal_lines [] = pure []
  terminal_lines (entry_result ∷ entries) = do
    entry ← from entry_result
    fd ← H.perform (open_fd entry.path read_only)
    pgrp ← or_minus_one (H.perform (tcgetpgrp fd))
    sid ← or_minus_one (H.perform (tcgetsid fd))
    H.perform (close fd)
    below ← terminal_lines entries
    pure ((entry.path, sid, pgrp) ∷ below)

  unfoldable pub list_terminals : Action H.State (List (Text × ℤ × ℤ))
  unfolding terminal_lines
  list_terminals = do entries ← H.perform (read_dir (codes "/dev/pts")); terminal_lines entries
