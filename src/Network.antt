-- ===== src/Network.antt =====
-- The network daemon of cmd/cherrywaf-netd/main.go: apply, confirm and rollback of a change to the
-- Netplan file. Each holds the daemon's mutex; what the system answers to it is an input.
pub mod Plan
pub mod Undo
use cherry_waf.Base.{
  ℕ, zero, suc, ◌+◌, ◌-◌, ◌*◌, ◌/◌, ◌%◌, ◌^◌, ◌≤◌, ◌<◌, min, max, String, ◌≡◌, refl, sym, ap, subst,
  fun_ext, ◌∙◌, ◌≢◌, ◌↔◌, ◌⊎◌, inl, inr, Bool, true, false, not, ◌&&◌, ◌||◌, Option, none, some,
  List, [], ◌∷◌, ◌++◌, map, arith, eq_iff, ltb, leb, if◌then◌else◌, ltb→lt, lt→ltb, leb→le, nat_beq,
  nat_beq_iff, Bool-cases, Option-cases, length, get_elem?, take, drop, In, All, any, all, keep_if,
  find_first, length-append, length-take-le, length-keep_if-le, In-keep_if, In-keep_if_of, All-In,
  find_first-some, find_first-none, Eq, ◌==◌, list_beq, list_beq_iff, ==_refl, Text, codes, nat_eq,
  string_eq, text_eq, if_both, between, is_space, trim_left, trim_right, trim_space, rune_len,
  byte_len, strip_prefix, strip_suffix, to_lower, ◌>>=◌,
}
use cherry_waf.Base.Assoc.{get, put, drop_key}

-- The files and the timers: the Netplan file, if it exists, the tokens of pending changes, for each
-- token the file that was replaced (which may not have existed), and the rollbacks that are scheduled.
pub record Files : Type 0 where
  pub plan : Option Text
  pub pending : List Text
  pub backups : List (Text × Option Text)
  pub timers : List Text

-- Which operations of the system succeed. A file that cannot be written or removed stays as it was.
pub record System : Type 0 where
  pub dry_run : Bool
  pub listed : Bool
  pub prepared : Bool
  pub read : Bool
  pub backed_up : Bool
  pub written : Bool
  pub noted : Bool
  pub generated : Bool
  pub scheduled : Bool
  pub applied : Bool
  pub restored : Bool
  pub generated_again : Bool
  pub applied_again : Bool
  pub note_removed : Bool
  pub backup_removed : Bool

-- `validToken`
unfoldable pub valid_token : Text → Bool
unfolding byte_len
valid_token value =
    nat_beq (byte_len value) 32 && all (λ c. between b'0' b'9' c || between b'a' b'f' c) value

abbrev pub without : Text → List Text → List Text
without token tokens = keep_if (λ t. not (t == token)) tokens

-- `cleanupChange`: the note goes first, and a failure stops it.
unfoldable pub cleanup_change : System → Text → Files → Files × Bool
unfolding keep_if drop_key
cleanup_change os token f =
    if not os.note_removed
    then (f, false)
    else (let f = record f { pending = without token f.pending } in
        if not os.backup_removed
        then (f, false)
        else (record f { backups = drop_key token f.backups }, true))

abbrev pub restore_found : System → Files → Option (Option Text) → Files × Bool
restore_found os f none = (f, false)
restore_found os f (some saved) =
    if os.restored then (record f { plan = saved }, true) else (f, false)

-- `restoreFiles`
unfoldable pub restore_files : System → Text → Files → Files × Bool
unfolding get
restore_files os token f = restore_found os f (get token f.backups)

-- `discardPreparedChange`
abbrev pub then_cleanup : System → Text → Files × Bool → Files × Bool
then_cleanup os token (f, false) = (f, false)
then_cleanup os token (f, true) = cleanup_change os token f

unfoldable pub discard_prepared : System → Text → Files → Files × Bool
unfolding restore_files cleanup_change
discard_prepared os token f = then_cleanup os token (restore_files os token f)

abbrev pub then_reapply : System → Text → Files × Bool → Files × Bool
then_reapply os token (f, false) = (f, false)
then_reapply os token (f, true) =
    if not os.dry_run && not (os.generated_again && os.applied_again)
    then (f, false)
    else cleanup_change os token f

-- `recoverAppliedChange`
unfoldable pub recover_applied : System → Text → Files → Files × Bool
unfolding restore_files cleanup_change
recover_applied os token f = then_reapply os token (restore_files os token f)

abbrev pub cancel_timer : Text → Files → Files
cancel_timer token f = record f { timers = without token f.timers }

-- The commands of `apply`, after the files are written.
unfoldable pub run_commands : System → Text → Files → Files × Bool
unfolding discard_prepared recover_applied keep_if
run_commands os token f =
    if os.dry_run
    then (f, true)
    else if not os.generated || not os.scheduled
    then ((discard_prepared os token f).0, false)
    else (let f = record f { timers = token ∷ f.timers } in
        if os.applied
        then (f, true)
        else ((recover_applied os token (cancel_timer token f)).0, false))

unfoldable pub write_files : System → Text → Text → Files → Files × Bool
unfolding run_commands cleanup_change restore_files put
write_files os token yaml f =
    let f = record f { backups = put token f.plan f.backups } in
    if not os.written
    then ((cleanup_change os token f).0, false)
    else (let f = record f { plan = some yaml } in
        if not os.noted
        then ((restore_files os token f).0, false)
        else run_commands os token (record f { pending = token ∷ f.pending }))

abbrev pub apply_rendered : System → Text → Files → Option Text → Files × Bool
apply_rendered os token f none = (f, false)
apply_rendered os token f (some yaml) =
    if os.read && os.backed_up then write_files os token yaml f else (f, false)

-- `apply`, of a plan as RenderNetplan renders it, if it does, under a new token.
unfoldable pub apply : System → Text → Option Text → Files → Files × Bool
unfolding write_files
apply os token rendered f =
    if not os.listed || not (nat_beq (length f.pending) 0) || not os.prepared
    then (f, false)
    else apply_rendered os token f rendered

-- `confirm`
unfoldable pub confirm : System → Text → Files → Files × Bool
unfolding valid_token cleanup_change keep_if
confirm os token f =
    if not (valid_token token) || not (any (λ t. t == token) f.pending)
    then (f, false)
    else cleanup_change os token (if os.dry_run then f else cancel_timer token f)

-- `rollback`, by an administrator or by the timer.
unfoldable pub rollback : System → Text → Files → Files × Bool
unfolding valid_token recover_applied
rollback os token f = if not (valid_token token) then (f, false) else recover_applied os token f
