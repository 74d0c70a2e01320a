-- ===== src/Network/Undo.antt =====
-- That a change of the network can be undone (cmd/cherrywaf-netd/main.go).
use cherry_waf.Base.{
  ◌≡◌, refl, ap, Bool, true, false, not, ◌&&◌, ◌||◌, Option, some, ◌∷◌, arith, nat_beq, length,
  Text, nat_eq, string_eq, text_eq, if_both,
}
use cherry_waf.Base.Assoc.{get, put, get-put_self}
use cherry_waf.Network.{
  Files, System, valid_token, cleanup_change, restore_files, discard_prepared, recover_applied,
  cancel_timer, run_commands, write_files, apply, rollback,
}

cleanup-plan :
    (os : System) (token : Text) (f : Files) → (cleanup_change os token f).0.plan ≡ f.plan
unfolding cleanup_change
cleanup-plan os token f = ground arith

-- A change whose backup is there, and whose files can be written.
abbrev Saved : System → Text → Option Text → Files → Type 0
Saved os token before f = (get token f.backups ≡ some before) × (os.restored ≡ true)

restored-plan :
    (os : System) (token : Text) (before : Option Text) (f : Files)
    → Saved os token before f
    → restore_files os token f ≡ (record f { plan = before }, true)
unfolding restore_files
restored-plan os token before f (saved, ok) = rw (saved, ok) refl

discarded-plan :
    (os : System) (token : Text) (before : Option Text) (f : Files)
    → Saved os token before f
    → (discard_prepared os token f).0.plan ≡ before
unfolding discard_prepared
discarded-plan os token before f h =
    rw (restored-plan os token before f h) (cleanup-plan os token (record f { plan = before }))

recovered-plan :
    (os : System) (token : Text) (before : Option Text) (f : Files)
    → Saved os token before f
    → (recover_applied os token f).0.plan ≡ before
unfolding recover_applied
recovered-plan os token before f h = rw (restored-plan os token before f h) (
    if_both (λ (r : Files × Bool). r.0.plan ≡ before)
      (not os.dry_run && not (os.generated_again && os.applied_again)) _ _ refl
      (cleanup-plan os token (record f { plan = before })))

-- What a result means for the file that was there before: a failure left it, and a success replaced it
-- and saved it under the token.
abbrev Undoable : Text → Option Text → Text → Files × Bool → Type 0
Undoable token before yaml r =
    (r.1 ≡ false → r.0.plan ≡ before)
    × (r.1 ≡ true → (get token r.0.backups ≡ some before) × (r.0.plan ≡ some yaml))

failed-Undoable :
    (token : Text) (before : Option Text) (yaml : Text) (f : Files)
    → f.plan ≡ before
    → Undoable token before yaml (f, false)
failed-Undoable token before yaml f h = (λ e. h, λ e. absurd (ground (arith, e)))

done-Undoable :
    (token : Text) (before : Option Text) (yaml : Text) (f : Files)
    → get token f.backups ≡ some before
    → f.plan ≡ some yaml
    → Undoable token before yaml (f, true)
done-Undoable token before yaml f h k = (λ e. absurd (ground (arith, e)), λ e. (h, k))

run_commands-Undoable :
    (os : System) (token : Text) (before : Option Text) (yaml : Text) (f : Files)
    → Saved os token before f
    → f.plan ≡ some yaml
    → Undoable token before yaml (run_commands os token f)
unfolding run_commands
run_commands-Undoable os token before yaml f (saved, ok) k =
    let P = Undoable token before yaml in
    if_both P os.dry_run _ _ (done-Undoable token before yaml f saved k) (
      if_both P (not os.generated || not os.scheduled) _ _
        (failed-Undoable token before yaml (discard_prepared os token f).0
          (discarded-plan os token before f (saved, ok)))
        (if_both P os.applied _ _
          (done-Undoable token before yaml (record f { timers = token ∷ f.timers }) saved k)
          (failed-Undoable token before yaml
            (recover_applied os token
              (cancel_timer token (record f { timers = token ∷ f.timers }))).0
            (recovered-plan os token before
              (cancel_timer token (record f { timers = token ∷ f.timers })) (saved, ok)))))

write_files-Undoable :
    (os : System) (token yaml : Text) (f : Files)
    → os.restored ≡ true
    → Undoable token f.plan yaml (write_files os token yaml f)
unfolding write_files
write_files-Undoable os token yaml f ok =
    let P = Undoable token f.plan yaml in
    let saved = record f { backups = put token f.plan f.backups } in
    let changed = record saved { plan = some yaml } in
    let here = get-put_self token f.plan f.backups in
    if_both P (not os.written) _ _
      (failed-Undoable token f.plan yaml (cleanup_change os token saved).0
        (cleanup-plan os token saved))
      (if_both P (not os.noted) _ _
        (failed-Undoable token f.plan yaml (restore_files os token changed).0
          (ap (λ (r : Files × Bool). r.0.plan) (restored-plan os token f.plan changed (here, ok))))
        (run_commands-Undoable os token f.plan yaml
          (record changed { pending = token ∷ changed.pending }) (here, ok) refl))

apply-Undoable :
    (os : System) (token yaml : Text) (f : Files)
    → os.restored ≡ true
    → Undoable token f.plan yaml (apply os token (some yaml) f)
unfolding apply
apply-Undoable os token yaml f ok =
    let P = Undoable token f.plan yaml in
    let same = failed-Undoable token f.plan yaml f refl in
    if_both P (not os.listed || not (nat_beq (length f.pending) 0) || not os.prepared) _ _ same
      (if_both P (os.read && os.backed_up) _ _ (write_files-Undoable os token yaml f ok) same)

-- Whatever fails while a change is applied, where the Netplan file can be restored: if the daemon
-- reports a failure the file is as it was, and if it reports success the file is the new one, and a
-- later rollback under a valid token makes it what it was, whether or not the system's commands succeed
-- then.
pub apply_undone :
    (os later : System) (token yaml : Text) (f : Files)
    → os.restored ≡ true
    → later.restored ≡ true
    → valid_token token ≡ true
    → ((apply os token (some yaml) f).1 ≡ false → (apply os token (some yaml) f).0.plan ≡ f.plan)
      × ((apply os token (some yaml) f).1 ≡ true
          → ((apply os token (some yaml) f).0.plan ≡ some yaml)
            × ((rollback later token (apply os token (some yaml) f).0).0.plan ≡ f.plan))
unfolding rollback
apply_undone os later token yaml f ok ok_later valid =
    let (kept, done) = apply-Undoable os token yaml f ok in
    (
      kept,
      λ e. (
        (done e).1,
        rw valid (
            recovered-plan later token f.plan (apply os token (some yaml) f).0
              ((done e).0, ok_later)),
      ),
    )
