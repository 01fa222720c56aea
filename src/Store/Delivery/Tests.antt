-- ===== src/Store/Delivery/Tests.antt =====
-- Runs of deliveries.
use pluribus.Base.{
  ◌↔◌, ◌≢◌, ℕ, ok, err, refl, ◌≡◌, ◌≤◌, ◌⊎◌, true, List, [], ◌∷◌, none, some, All, if◌then◌else◌,
  ◌==◌, string_eq, is_ok, arith, pos,
}
use pluribus.Core.Delivery.{DeliveryCommit, DeliveryReceipt, CursorKey, validate, conflict}
use pluribus.Core.Examples.{first_delivery, cursor, first_request, second_request}
use pluribus.Store.Tables.{Database, empty, cursor_eq}
use pluribus.Store.Examples.{counting, plain_index}
use pluribus.Store.Events.Log.{Log}
use pluribus.Store.Events.Refinement.{Represents}
use pluribus.Store.Events.Refinement.Commit.{empty-Represents}
use pluribus.Store.Rows.Roundtrip.{committed}
use pluribus.Store.State.{get}
use pluribus.Store.State.Updates.{replay}
use pluribus.Store.Delivery.{commit, discard, read_checkpoint}
use pluribus.Store.Delivery.Commits.{commit_conflict_iff}
use pluribus.Store.Delivery.Refinement.{Appends, commit_refines}
use pluribus.Store.Delivery.Effects.{commit_state, commit_advances, commit-commit_conflict}

abbrev after : Database
after = (commit plain_index counting 0 empty first_delivery).1

abbrev receipt : DeliveryReceipt
receipt = record {
  events = committed first_request "e-0" 1 (pos 1) ∷ committed second_request "e-1" 2 (pos 2) ∷ [];
  checkpoint = 4;
  revision = 1;
}

commits : commit plain_index counting 0 empty first_delivery ≡ (ok receipt, after, 2)
unfolding commit pluribus.Store.Delivery.commit_in validate pluribus.Core.Event.validate
    pluribus.Core.BlobRef.validate_blob_ref pluribus.Core.BlobRef.validate_media_type
    pluribus.Base.dedup pluribus.Base.sort read_checkpoint pluribus.Base.lookup
    pluribus.Store.State.mutate pluribus.Store.State.next_revision
    pluribus.Store.State.state_revision pluribus.Store.State.ensure_namespace pluribus.Base.insert
    pluribus.Store.Delivery.finish pluribus.Store.Delivery.append_all pluribus.Base.text_le
    pluribus.Core.Delivery.keys_of pluribus.Store.Delivery.checkpoint_or
    pluribus.Store.Events.append_in pluribus.Store.Events.assign pluribus.Store.Events.check_stream
    pluribus.Store.Events.duplicate_of pluribus.Store.Events.ensure_stream
    pluribus.Store.Events.insert_event pluribus.Store.Events.prepare
    pluribus.Store.Events.set_next_sequence pluribus.Store.Events.violates_unique
    pluribus.Store.Rows.encode_event
commits = refl

valid : validate first_delivery ≡ ok tt
unfolding validate pluribus.Core.Event.validate pluribus.Core.BlobRef.validate_blob_ref
    pluribus.Core.BlobRef.validate_media_type pluribus.Base.dedup pluribus.Base.sort
valid = refl

commit_refines_example :
    (final : Log) × Appends [] first_delivery.events receipt.events final × Represents after final
commit_refines_example =
    commit_refines plain_index counting 0 2 empty after [] first_delivery receipt empty-Represents
      (tt, (omega arith, tt)) commits

commit_state_example : get after "shell" "job" ≡ (
    if cursor.namespace == cursor.namespace
    then record {
      revision = 1;
      value = replay first_delivery.mutations "job" (get empty "shell" "job").value;
    }
    else get empty "shell" "job")
commit_state_example =
    commit_state plain_index counting 0 2 empty after first_delivery receipt "shell" "job" commits

commit_advances_example : read_checkpoint empty cursor ≤ read_checkpoint after cursor
commit_advances_example =
    commit_advances plain_index counting 0 2 empty after first_delivery receipt cursor commits

commit-commit_conflict_example :
    commit plain_index counting 2 after first_delivery ≡ (err (conflict 0 4), after, 2)
commit-commit_conflict_example =
    commit-commit_conflict plain_index counting 0 2 2 empty after first_delivery first_delivery
      receipt 4 commits refl (omega arith) valid refl refl

commit_conflict_iff_example :
    ((commit plain_index counting 2 after first_delivery).0 ≡ err (conflict 0 4)) ↔ (
      (validate first_delivery ≡ ok tt)
      × (0 ≡ first_delivery.expected_checkpoint)
      × (4 ≡ read_checkpoint after first_delivery.cursor)
      × (◌≢◌ {A = ℕ} 0 4))
commit_conflict_iff_example = commit_conflict_iff plain_index counting 2 after first_delivery 0 4
