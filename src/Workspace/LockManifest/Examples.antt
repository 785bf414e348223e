-- ===== src/Workspace/LockManifest/Examples.antt =====
-- Runs of the lock manifest.
use dat.Prelude.{true, false, codes, [], ◌∷◌, text_eq, ◌≡◌, refl, ◌==◌}
use dat.Workspace.LockManifest.{
  Process, missing, malformed, recorded, current, LockManifest, new_window, asked, in_use, acquire,
  open_workspace, claim, write, tombstone, decide, classify_record,
}
use dat.Workspace.LockManifest.World.{
  Session, World, with_copy, receive, Reach, start, later, opens, arrives, claim_lock, drop_session,
  asks,
}
use dat.Workspace.LockManifest.Sole.{IsSole, Reach-IsSole}
use dat.Workspace.LockManifest.Released.{Reach-AfterHolder, claim_lock-asks, verdict}

abbrev laptop : Process
laptop = record { id = 41; machine = 0; host = codes "laptop"; version = codes "4.0.0" }

abbrev desktop : Process
desktop = record { id = 7; machine = 1; host = codes "desktop"; version = codes "4.0.0" }

abbrev server : Process
server = record { id = 7; machine = 2; host = codes "server"; version = codes "4.0.0" }

abbrev on_laptop : Session
on_laptop = record { process = laptop; manifest_lock = true }

abbrev laptop_record : LockManifest
laptop_record = record {
  pid = 41;
  hostname = codes "laptop";
  started_at = codes "100";
  dat0_version = codes "4.0.0";
  tombstoned = false;
}

-- The laptop opened a workspace whose lock file was no record on any machine.
abbrev opened : World
opened = record {
  copies = with_copy 0 (recorded laptop_record) (λ m. malformed);
  latest = recorded laptop_record;
  sessions = on_laptop ∷ [];
}

opened-Reach : Reach (λ m. malformed) malformed opened
unfolding claim_lock claim write current asks open_workspace acquire decide
opened-Reach = later start (opens (λ pid. false) laptop (codes "100") true refl refl refl refl)

-- Then an old state of the file, none at all, arrives on the desktop.
arrived-Reach :
    Reach (λ m. malformed) malformed (record opened { copies = with_copy 1 missing opened.copies })
arrived-Reach = later opened-Reach (arrives 1 missing refl)

-- Once the file has arrived, the desktop is asked; a second instance on the laptop is told that it is
-- in use.
desktop_asked : asks (λ pid. true) desktop (receive 1 opened) ≡ asked laptop_record
unfolding asks open_workspace acquire decide classify_record text_eq
desktop_asked = refl

laptop_in_use : asks (λ pid. pid == 41) (record laptop { id = 42 }) opened ≡ in_use
unfolding asks open_workspace acquire decide classify_record text_eq
laptop_in_use = refl

-- As long as it has not, the desktop opens the workspace too.
desktop_not_asked : asks (λ pid. true) desktop opened ≡ new_window
unfolding asks open_workspace acquire decide
desktop_not_asked = refl

-- The guard on a file that is no record writes one of its own process, tombstoned.
malformed_tombstone :
    tombstone true malformed laptop
    ≡ recorded (record {
      pid = 41;
      hostname = codes "laptop";
      started_at = [];
      dat0_version = codes "4.0.0";
      tombstoned = true;
    })
unfolding tombstone write current
malformed_tombstone = refl

Reach-IsSole_example : IsSole (record opened { copies = with_copy 1 missing opened.copies })
Reach-IsSole_example = Reach-IsSole arrived-Reach

Reach-AfterHolder_example :
    (asks (λ pid. false) desktop (receive 1 (drop_session true on_laptop [] opened)) ≡ new_window)
    × (r : LockManifest) × (opened.latest ≡ recorded r)
    × (asks (λ pid. false) desktop (receive 1 (record opened { sessions = [] }))
        ≡ verdict (λ pid. false) desktop (codes "laptop") 41 r)
Reach-AfterHolder_example =
    Reach-AfterHolder 0 on_laptop [] opened-Reach refl refl (λ pid. false) desktop refl

claim_lock-asks_example :
    (asks (λ pid. false) server (receive 2 (claim_lock true desktop (codes "200") opened))
      ≡ asked (current desktop (codes "200")))
    × (asks
          (λ pid. false)
          server
          (receive 2 (
            drop_session true on_laptop
              (record { process = desktop; manifest_lock = true } ∷ [])
              (receive 0 (claim_lock true desktop (codes "200") opened))))
        ≡ new_window)
unfolding text_eq
claim_lock-asks_example =
    claim_lock-asks opened desktop server (codes "200") (λ pid. false) 0 on_laptop [] refl refl refl
      refl refl
