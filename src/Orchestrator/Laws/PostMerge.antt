-- ===== src/Orchestrator/Laws/PostMerge.antt =====
-- core/orchestrator.ts: external merges and the verification of merge commits.
use ninthwave.Prelude.{ℕ, true, not, ◌&&◌, ◌||◌, ◌≡◌, refl, arith, some, none, Option, is_some, leb}
use ninthwave.Orchestrator.Types.{
  State, Config, ci_pending, merged, forward_fix_pending, fix_forward_failed, fixing_forward, done,
  stuck,
}
use ninthwave.Orchestrator.Item.{Item, ItemSnapshot, is_open, is_merged, pass, fail, pending}
use ninthwave.Orchestrator.Workers.{is_dead, check_worker_liveness}
use ninthwave.Orchestrator.Pipeline.{is_status}
use ninthwave.Orchestrator.PostMerge.{
  is_external_merge_state, intercept_external_merge, fail_main_ci, handle_merged,
  handle_forward_fix_pending, handle_fix_forward_failed, restart_on_repair, adopt_tracked_pr_number,
  adopt_repair, watch_forward_fixer, fix_forward_by, handle_fixing_forward,
}
use ninthwave.Orchestrator.Transition.{Clock, transition, session_parked-moved}
use ninthwave.Orchestrator.Laws.Post.{
  Post, Handed, Hands, Post-bind, if-Post, transition-Post, may_move,
}
use ninthwave.Orchestrator.Laws.Parking.{
  well_parked, Parks, Enters, transition-Enters, Enters-then-Parks, SameParking,
  SameParking-well_parked, check_worker_liveness_keeps,
}
use ninthwave.Orchestrator.Laws.Checks.{handle_ci_pending-Parks}

abbrev IsParkedWell : Item → Type 0
IsParkedWell i = well_parked i ≡ true

external_merge_legal : (s : State) → is_external_merge_state s ≡ true → may_move s merged ≡ true
external_merge_legal s h = ground arith

pub intercept_external_merge-Parks :
    (clock : Clock) (snap : ItemSnapshot) (item : Item)
    → well_parked item ≡ true
    → Hands Parks item (intercept_external_merge clock snap item)
unfolding intercept_external_merge
intercept_external_merge-Parks clock snap item h =
    if-Post (Handed Parks item)
      (not (is_external_merge_state item.state && is_merged snap.pr_state)) _ _ (λ _. refl)
      λ merge.
        Post-bind (Enters merged) (Handed Parks item) (transition clock merged snap.event_time _) _
          (transition-Enters clock merged snap.event_time _
            (external_merge_legal item.state (ground arith)) h)
          (λ i e. e.1)

fail_main_ci_parks :
    (clock : Clock) (item : Item)
    → may_move item.state fix_forward_failed ≡ true
    → well_parked item ≡ true
    → Post IsParkedWell (fail_main_ci clock item)
unfolding fail_main_ci
fail_main_ci_parks clock item legal h =
    Post-bind (Enters fix_forward_failed) IsParkedWell (transition clock fix_forward_failed none _)
      _ (transition-Enters clock fix_forward_failed none _ legal h) (λ i e. e.1)

goes :
    (clock : Clock) (s : State) (item : Item)
    → may_move item.state s ≡ true
    → well_parked item ≡ true
    → Post IsParkedWell (transition clock s none item)
goes clock s item legal h =
    transition-Post IsParkedWell clock s none item legal (λ _. h)
      (rw (session_parked-moved clock.wall s none item))

module _ (config : Config) (clock : Clock) (snap : ItemSnapshot) where
  pub handle_merged-Parks :
      (item : Item)
      → item.state ≡ merged
      → well_parked item ≡ true
      → Post Parks (handle_merged config clock snap item)
  unfolding handle_merged
  handle_merged-Parks item s h =
      Post-bind IsParkedWell Parks _ _
        (if-Post IsParkedWell (not config.fix_forward || is_status pass snap.merge_commit_ci_status)
          _ _ (λ _. goes clock done item (rw s refl) h)
          λ _.
            if-Post IsParkedWell (is_status fail snap.merge_commit_ci_status) _ _
              (λ _. fail_main_ci_parks clock item (rw s refl) h)
              λ _.
                if-Post IsParkedWell (is_some item.merge_commit_sha) _ _
                  (λ _. goes clock forward_fix_pending item (rw s refl) h) (λ _. h))
        (λ i p. p)

  pub handle_forward_fix_pending-Parks :
      (item : Item)
      → item.state ≡ forward_fix_pending
      → well_parked item ≡ true
      → Post Parks (handle_forward_fix_pending clock snap item)
  unfolding handle_forward_fix_pending
  handle_forward_fix_pending-Parks item s h =
      Post-bind IsParkedWell Parks _ _
        (if-Post IsParkedWell (is_status pass snap.merge_commit_ci_status) _ _
          (λ _. goes clock done item (rw s refl) h)
          λ _.
            if-Post IsParkedWell (is_status fail snap.merge_commit_ci_status) _ _
              (λ _. fail_main_ci_parks clock item (rw s refl) h)
              λ _.
                if-Post IsParkedWell (is_status pending snap.merge_commit_ci_status && _) _ _
                  (λ _. goes clock done item (rw s refl) h) (λ _. h))
        (λ i p. p)

  pub handle_fix_forward_failed-Parks :
      (item : Item)
      → item.state ≡ fix_forward_failed
      → well_parked item ≡ true
      → Post Parks (handle_fix_forward_failed config clock snap item)
  unfolding handle_fix_forward_failed
  handle_fix_forward_failed-Parks item s h =
      if-Post Parks (leb config.max_fix_forward_retries item.fix_forward_fail_count) _ _
        (λ _. Enters-then-Parks clock stuck none item _ (rw s refl) h λ i e. e.1)
        λ _.
          if-Post Parks (is_status pass snap.merge_commit_ci_status) _ _
            (λ _. Enters-then-Parks clock done none item _ (rw s refl) h λ i e. e.1)
            λ _.
              if-Post Parks (is_some item.merge_commit_sha) _ _
                (λ _. Enters-then-Parks clock fixing_forward none item _ (rw s refl) h λ i e. e.1)
                (λ _. h)

  adopt_repair-Parks :
      (pr : ℕ) (item : Item)
      → item.state ≡ fixing_forward
      → well_parked item ≡ true
      → Post Parks (adopt_repair config clock snap pr item)
  unfolding adopt_repair restart_on_repair adopt_tracked_pr_number
  adopt_repair-Parks pr item s h =
      if-Post Parks (is_merged snap.pr_state) _ _
        (λ _. Enters-then-Parks clock merged snap.event_time _ _ (rw s refl) h λ i e. e.1)
        (λ _.
          Enters-then-Parks clock ci_pending snap.event_time _ _ (rw s refl) h λ i e.
            handle_ci_pending-Parks config (record clock { now = clock.wall }) snap i e.0 e.1)

  watch_forward_fixer-Parks :
      (item : Item)
      → item.state ≡ fixing_forward
      → well_parked item ≡ true
      → Post Parks (watch_forward_fixer clock snap item)
  unfolding watch_forward_fixer
  watch_forward_fixer-Parks item s h =
      if-Post Parks (is_status pass snap.merge_commit_ci_status) _ _
        (λ _. Enters-then-Parks clock done none item _ (rw s refl) h λ i e. e.1)
        λ _.
          if-Post Parks (not (is_some item.fix_forward_workspace_ref)) _ _ (λ _. h)
            λ _.
              if-Post Parks (not (is_dead (check_worker_liveness snap item).1)) _ _ (λ _. counted)
                (λ _.
                  Enters-then-Parks clock stuck none (check_worker_liveness snap item).0 _
                    (rw (keeps.0, s) refl) counted λ i e. e.1)
    where
      keeps : SameParking (check_worker_liveness snap item).0 item
      keeps = check_worker_liveness_keeps snap item

      counted : well_parked (check_worker_liveness snap item).0 ≡ true
      counted = SameParking-well_parked (check_worker_liveness snap item).0 item keeps h

  pub handle_fixing_forward-Parks :
      (item : Item)
      → item.state ≡ fixing_forward
      → well_parked item ≡ true
      → Post Parks (handle_fixing_forward config clock snap item)
  unfolding handle_fixing_forward fix_forward_by
  handle_fixing_forward-Parks item s h = by_number snap.pr_number
    where
      by_number : (n : Option ℕ) → Post Parks (fix_forward_by config clock snap item n)
      by_number none = watch_forward_fixer-Parks item s h
      by_number (some pr) =
          if-Post Parks (is_open snap.pr_state || is_merged snap.pr_state) _ _
            (λ _. adopt_repair-Parks pr item s h) (λ _. watch_forward_fixer-Parks item s h)
