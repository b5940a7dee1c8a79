-- ===== src/SyncClient/Reconcile/Tests.antt =====
-- A run of the sync client at concrete inputs.
use orbeat_community.Prelude.{
  String, ◌≡◌, ◌≢◌, ◌↔◌, refl, inl, inr, true, false, some, List, [], ◌∷◌, Among, contains,
}
use orbeat_community.Prelude.Assoc.{Assoc, lookup, insert, erase}
use orbeat_community.Text.Slug.{is_slug}
use orbeat_community.SyncClient.ManagedPath.{path_of, valid_managed_file_path}
use orbeat_community.SyncClient.ManagedPath.Shapes.{IsRendered, valid_managed_file_path_iff}
use orbeat_community.SyncClient.Reconcile.{
  Artifact, Os, Run, done, run_of, desire, desire_path, append_applied, action_for, write_file, act,
  write_entry, write_loop, remove_file, remove_checked, remove_entry, remove_loop, reconcile,
}
use orbeat_community.SyncClient.Reconcile.Converges.{Settled}
use orbeat_community.SyncClient.Reconcile.Converges.Cleared.{IsCleared}
use orbeat_community.SyncClient.Reconcile.Desires.{file_of, target}
use orbeat_community.SyncClient.Reconcile.InStep.{reconcile-Settled, reconcile-IsCleared}
use orbeat_community.SyncClient.Reconcile.SecondRun.{reconcile_twice}
use orbeat_community.SyncClient.Reconcile.Unmanaged.{reconcile-Unmanaged}
use orbeat_community.SyncClient.Reconcile.Unseen.{IsTaken, reconcile-IsTaken}

abbrev review_path : String
review_path = "skills/review/SKILL.md"

abbrev mine_path : String
mine_path = "agents/mine.md"

abbrev old_path : String
old_path = "agents/old.md"

valid_managed_file_path_iff_example :
    (valid_managed_file_path review_path ≡ true) ↔ IsRendered review_path
valid_managed_file_path_iff_example = valid_managed_file_path_iff review_path

abbrev sound : Os
sound = record {
  stat_fails = λ p. false;
  read_fails = λ p. false;
  write_fails = λ p. false;
  remove_fails = λ p. false;
  contained = λ p. true;
}

abbrev disk : Assoc String
disk = (mine_path, "mine") ∷ ((old_path, "old") ∷ [])

abbrev review : Artifact
review = record { id = "1"; type = "skill"; name = "review"; content = "look"; revision = 2 }

abbrev mine : Artifact
mine = record { id = "2"; type = "subagent"; name = "mine"; content = "theirs"; revision = 1 }

abbrev arts : List Artifact
arts = review ∷ (mine ∷ [])

reconcile-Unmanaged_example :
    lookup mine_path (run_of (reconcile sound disk (old_path ∷ []) arts)).disk ≡ some "mine"
unfolding lookup contains
reconcile-Unmanaged_example =
    reconcile-Unmanaged sound disk (old_path ∷ []) arts mine_path "mine" refl refl refl

abbrev after : Run
after = record {
  disk = (mine_path, "mine") ∷ ((review_path, "look") ∷ []);
  managed = review_path ∷ [];
  res = record {
    added = 1;
    updated = 0;
    removed = 1;
    unchanged = 0;
    handled = 2;
    skipped = mine_path ∷ [];
    failures = [];
    warnings = [];
    applied = record { artifact_id = "1"; revision = 2 } ∷ [];
  };
}

old_path-valid : valid_managed_file_path old_path ≡ true
unfolding path_of is_slug
old_path-valid = (valid_managed_file_path_iff old_path).1 ("subagent", "old", refl, refl)

reconciled : reconcile sound disk (old_path ∷ []) arts ≡ done after
unfolding reconcile desire desire_path path_of is_slug lookup insert erase contains write_loop
    write_entry action_for act write_file append_applied remove_loop remove_entry remove_checked
    remove_file
reconciled = rw old_path-valid refl

reconcile-Settled_example :
    (b : Artifact) × Among b arts
    × (target b ≡ some review_path)
    × Settled review_path (file_of b) after
unfolding path_of
reconcile-Settled_example =
    reconcile-Settled sound disk (old_path ∷ []) arts after review review_path reconciled (inl refl)
      refl

unwanted : (a : Artifact) → Among a arts → target a ≢ some old_path
unfolding path_of
unwanted a (inl here) = rw (← here) (λ e. cc)
unwanted a (inr (inl here)) = rw (← here) (λ e. cc)
unwanted a (inr (inr nowhere)) = absurd nowhere

reconcile-IsCleared_example : IsCleared old_path after
unfolding path_of contains
reconcile-IsCleared_example =
    reconcile-IsCleared sound disk (old_path ∷ []) arts after old_path reconciled refl unwanted

abbrev blind : Os
blind = record sound { stat_fails = λ p. true }

-- Her own file, which no ledger names, is replaced.
abbrev blind_after : Run
blind_after = record {
  disk = (mine_path, "theirs") ∷ [];
  managed = mine_path ∷ [];
  res = record {
    added = 1;
    updated = 0;
    removed = 0;
    unchanged = 0;
    handled = 1;
    skipped = [];
    failures = [];
    warnings = [];
    applied = record { artifact_id = "2"; revision = 1 } ∷ [];
  };
}

blindly_reconciled : reconcile blind ((mine_path, "mine") ∷ []) [] (mine ∷ []) ≡ done blind_after
unfolding reconcile desire desire_path path_of is_slug lookup insert contains write_loop write_entry
    action_for act write_file append_applied remove_loop
blindly_reconciled = refl

reconcile-IsTaken_example :
    (b : Artifact) × Among b (mine ∷ [])
    × (target b ≡ some mine_path)
    × IsTaken mine_path b.content blind_after
unfolding path_of
reconcile-IsTaken_example =
    reconcile-IsTaken blind ((mine_path, "mine") ∷ []) [] (mine ∷ []) blind_after mine mine_path
      blindly_reconciled (inl refl) refl refl refl

reconcile_twice_example : (run_of (reconcile sound after.disk after.managed arts)).disk ≡ after.disk
reconcile_twice_example =
    reconcile_twice sound disk (old_path ∷ []) arts after (λ p. (refl, refl)) reconciled
