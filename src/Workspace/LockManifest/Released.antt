-- ===== src/Workspace/LockManifest/Released.antt =====
-- Opening a workspace after its holder has closed it, crashed, or been overridden.
use dat.Prelude.{
  ℕ, zero, suc, Bool, true, false, Text, text_eq, if◌then◌else◌, Option, none, some, List, [], ◌∷◌,
  any, ◌==◌, ◌≡◌, refl, sym, ◌∙◌, ap, ap₂, arith,
}
use mathlib.Core.Path.{subst}
use mathlib.Core.Option.{none-ne-some, some-injective}
use dat.Workspace.LockManifest.{
  LockManifest, Process, LockFile, missing, unreadable, malformed, recorded, current, acquire,
  classify_record, write, claim, tombstone, decide, Opened, new_window, asked, in_use,
  open_workspace,
}
use dat.Workspace.LockManifest.World.{
  Session, World, asks, claim_lock, drop_session, take_out, past, Reach, is_of, receive, put_file,
  is_tombstoned, folder_for,
}
use dat.Workspace.LockManifest.Holders.{take_out-Apart, Holds-out}
use dat.Workspace.LockManifest.Sole.{Records, Holds, Reach-IsSole}

-- In a reachable world, the files are the record of the session that has the guard.
Reach-Holds :
    {copies : ℕ → LockFile} {latest : LockFile} {w : World} (i : ℕ) (s : Session)
    (rest : List Session)
    → Reach copies latest w
    → take_out i w.sessions ≡ some (s, rest)
    → s.manifest_lock ≡ true
    → Holds w s
Reach-Holds {w = w} i s rest r e h =
    (Holds-out (Holds w) s w.sessions rest (Reach-IsSole r) (take_out-Apart i w.sessions s rest e)
      h).1

-- A process without a window, on a machine where the file that was written last has arrived.
receive-asks :
    (pid_alive : ℕ → Bool) (p : Process) (w : World)
    → any (is_of p) w.sessions ≡ false
    → asks pid_alive p (receive p.machine w)
      ≡ open_workspace (folder_for false) pid_alive w.latest p.host
unfolding asks
receive-asks pid_alive p w n =
    let same : (p.machine == p.machine) ≡ true = ground arith in
    ap₂
      (λ held b.
        open_workspace (folder_for held) pid_alive (if b then w.latest else w.copies p.machine)
          p.host)
      n same

-- A tombstoned record stops nobody.
tombstone-open :
    (pid_alive : ℕ → Bool) (p q : Process) (r : LockManifest)
    → open_workspace (folder_for false) pid_alive (tombstone true (recorded r) q) p.host
      ≡ new_window
unfolding open_workspace acquire classify_record decide tombstone write
tombstone-open pid_alive p q r = refl

-- What `open` does, of the holder's host, its process id and its record.
abbrev pub verdict : (ℕ → Bool) → Process → Text → ℕ → LockManifest → Opened
verdict pid_alive p host pid r =
    if text_eq host p.host then (if pid_alive pid then in_use else new_window) else asked r

recorded-open :
    (pid_alive : ℕ → Bool) (p : Process) (r : LockManifest)
    → r.tombstoned ≡ false
    → open_workspace (folder_for false) pid_alive (recorded r) p.host
      ≡ verdict pid_alive p r.hostname r.pid r
unfolding open_workspace acquire classify_record decide
recorded-open pid_alive p r m = ground arith

-- Where the session has the guard and its machine's file is a record, closing it writes that record,
-- tombstoned, and nobody is stopped any more where the file has arrived.
drop_session-asks :
    (pid_alive : ℕ → Bool) (p : Process) (s : Session) (rest : List Session) (w : World)
    (r : LockManifest)
    → s.manifest_lock ≡ true
    → w.copies s.process.machine ≡ recorded r
    → any (is_of p) rest ≡ false
    → asks pid_alive p (receive p.machine (drop_session true s rest w)) ≡ new_window
unfolding drop_session
drop_session-asks pid_alive p s rest w r h e n =
    let written : World =
      put_file (is_tombstoned true (w.copies s.process.machine)) s.process.machine
        (tombstone true (w.copies s.process.machine) s.process) (record w { sessions = rest }) in
    ap
      (λ b.
        asks pid_alive p (receive p.machine (if b then written else record w { sessions = rest })))
      h
    ∙ receive-asks pid_alive p written n
    ∙ ap
        (λ f.
          open_workspace (folder_for false) pid_alive
            (if is_tombstoned true f then tombstone true f s.process else w.latest) p.host)
        e
    ∙ tombstone-open pid_alive p s.process r

-- What two worlds that a session leaves, by closing or by a crash, have `open` do.
abbrev AfterHolder : (ℕ → Bool) → Process → World → Session → List Session → Type 0
AfterHolder pid_alive p w s rest =
    (asks pid_alive p (receive p.machine (drop_session true s rest w)) ≡ new_window)
    × (r : LockManifest) × (w.latest ≡ recorded r)
    × (asks pid_alive p (receive p.machine (record w { sessions = rest }))
        ≡ verdict pid_alive p s.process.host s.process.id r)

Records-is_recorded :
    (file : LockFile) (s : Session) → Records file s → (r : LockManifest) × (file ≡ recorded r)
Records-is_recorded missing s k = absurd k
Records-is_recorded unreadable s k = absurd k
Records-is_recorded malformed s k = absurd k
Records-is_recorded (recorded r) s k = (r, refl)

-- In a world that openings, closings, crashes and arriving files lead to, let the session with the
-- lock manifest be the one that goes, and let the file that was written last have arrived on the
-- machine of a process without a window on the workspace. Where the session closed and the tombstone
-- was written, the process gets a new window, on whatever machine it is. Where the session crashed,
-- a process on a machine of the same host name gets a new window exactly when the crashed process
-- is not reported alive there, and one on any other machine is asked, with the session's record.
pub Reach-AfterHolder :
    {copies : ℕ → LockFile} {latest : LockFile} {w : World} (i : ℕ) (s : Session)
    (rest : List Session)
    → Reach copies latest w
    → take_out i w.sessions ≡ some (s, rest)
    → s.manifest_lock ≡ true
    → (pid_alive : ℕ → Bool) (p : Process) → any (is_of p) rest ≡ false
    → (asks pid_alive p (receive p.machine (drop_session true s rest w)) ≡ new_window)
      × (r : LockManifest) × (w.latest ≡ recorded r)
      × (asks pid_alive p (receive p.machine (record w { sessions = rest }))
          ≡ verdict pid_alive p s.process.host s.process.id r)
Reach-AfterHolder {w = w} i s rest r e h pid_alive p n =
    let held = Reach-Holds i s rest r e h in
    let (own, is) = Records-is_recorded (w.copies s.process.machine) s held.1 in
    let (r, last) = Records-is_recorded w.latest s held.0 in
    let (m, pid, host) = subst (λ f. Records f s) last held.0 in
    (
      drop_session-asks pid_alive p s rest w own h is n,
      r,
      last,
      receive-asks pid_alive p (record w { sessions = rest }) n
          ∙ ap (λ f. open_workspace (folder_for false) pid_alive f p.host) last
          ∙ recorded-open pid_alive p r m
          ∙ ap₂ (λ x y. verdict pid_alive p x y r) host pid,
    )

-- A process without a window has none once another window is gone.
past-any :
    (f : Session → Bool) (t s : Session) (l rest : List Session)
    (o : Option (Session × List Session))
    → ((rest' : List Session) → o ≡ some (s, rest') → any f rest' ≡ false)
    → any f (t ∷ l) ≡ false
    → past t o ≡ some (s, rest)
    → any f rest ≡ false
past-any f t s l rest none k n e = absurd (none-ne-some (s, rest) e)
past-any f t s l rest (some (u, rest')) k n e =
    let q = some-injective _ _ e in
    let m : any f rest' ≡ false = k rest' (ap (λ z. some (z.0, rest')) q) in
    let both : any f (t ∷ rest') ≡ false = ground arith in ap (λ z. any f z.1) (sym q) ∙ both

take_out-any :
    (f : Session → Bool) (i : ℕ) (l : List Session) (s : Session) (rest : List Session)
    → any f l ≡ false
    → take_out i l ≡ some (s, rest)
    → any f rest ≡ false
take_out-any f zero [] s rest n e = absurd (none-ne-some (s, rest) e)
take_out-any f (suc i) [] s rest n e = absurd (none-ne-some (s, rest) e)
take_out-any f zero (t ∷ l) s rest n e =
    let m : any f l ≡ false = ground arith in ap (λ z. any f z.1) (sym (some-injective _ _ e)) ∙ m
take_out-any f (suc i) (t ∷ l) s rest n e =
    let m : any f l ≡ false = ground arith in
    past-any f t s l rest (take_out i l) (λ rest'. take_out-any f i l s rest' m) n e

-- Where a process claims the lock while a session of another has it, as "Open anyway" does, a third
-- process without a window, on a machine that is not the claimer's and has another host name, is
-- asked with the claimer's record once that has arrived; but as soon as the first session, on whose
-- machine it has arrived too, closes and the file it writes arrives, the third process gets a new
-- window at once, although the claimer still has the workspace open.
pub claim_lock-asks :
    (w : World) (p q : Process) (now : Text) (pid_alive : ℕ → Bool) (i : ℕ) (s : Session)
    (rest : List Session)
    → take_out i w.sessions ≡ some (s, rest)
    → s.manifest_lock ≡ true
    → text_eq p.host q.host ≡ false
    → (p.machine == q.machine) ≡ false
    → any (is_of q) w.sessions ≡ false
    → (asks pid_alive q (receive q.machine (claim_lock true p now w)) ≡ asked (current p now))
      × (asks pid_alive q (
            receive q.machine (
              drop_session true s
                (record { process = p; manifest_lock = true } ∷ rest)
                (receive s.process.machine (claim_lock true p now w))))
          ≡ new_window)
unfolding claim_lock claim write current
claim_lock-asks w p q now pid_alive i s rest e h d o n =
    let claimer : Session = record { process = p; manifest_lock = true } in
    let both : any (is_of q) (claimer ∷ w.sessions) ≡ false = rw o n in
    let m = take_out-any (is_of q) i w.sessions s rest n e in
    let left : any (is_of q) (claimer ∷ rest) ≡ false = rw o m in
    let same : (s.process.machine == s.process.machine) ≡ true = ground arith in
    let claimed = claim_lock true p now w in
    (
      receive-asks pid_alive q claimed both
          ∙ recorded-open pid_alive q (current p now) refl
          ∙ ap
              (λ t.
                if t
                then (if pid_alive p.id then in_use else new_window)
                else asked (current p now))
              d,
      drop_session-asks pid_alive q s (claimer ∷ rest) (receive s.process.machine claimed)
          (current p now) h
          (ap (λ b. if b then claimed.latest else claimed.copies s.process.machine) same) left,
    )
