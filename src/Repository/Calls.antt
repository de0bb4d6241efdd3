-- ===== src/Repository/Calls.antt =====
-- Any sequence of calls on the repository of sessions.
use pjs.Prelude.{ℕ, ◌≡◌, ap, List, [], ◌∷◌, Option, none, some, inl, inr, Option-cases, nat_eq}
use pjs.Prelude.Map.{lookup}
use pjs.Outcome.{DomainResult, ok, DomainResult-cases}
use pjs.F64.{Float}
use pjs.Priority.{Priority}
use pjs.JsonData.{JsonData}
use pjs.Stream.{StreamConfig}
use pjs.Session.{StreamSession}
use pjs.Session.Basics.{close}
use pjs.Session.Streams.{
  create_stream_with_config, start_stream, complete_stream, extract_prioritized_patches_for_stream,
  commit_patch_frames_for_stream,
}
use pjs.Session.Batch.{extract_prioritized_patches_for_active_streams, commit_priority_frames}
use pjs.Repository.{
  GatInMemoryStreamRepository, new, sum_frames, save_session, remove_session, attempt_with, drained,
  only_events, both,
}
use pjs.Repository.Queries.{SessionHealthSnapshot, get_session_health}
use pjs.Repository.Atomic.{
  create_stream_atomic, start_stream_atomic, complete_stream_atomic, close_session_atomic,
  create_stream_patch_frames_atomic, batch_generate_frames_atomic,
}
use pjs.Repository.Cache.{Sound, Sound-atomic, Sound-save, Sound-remove, cached_frames, found_own}
use pjs.Repository.Kept.{
  Kept-attempt, Kept-attempt_with, Kept-drained, close_id, start_stream_id, complete_stream_id,
  create_stream_with_config_id, commit_priority_frames_id, Kept-commit_patch_frames_for_stream,
}

-- One call with what it reads. The two that extract patches from a copy say which repository they saw.
pub data Call : Type 0 where
  save : StreamSession → Call
  remove : ℕ → Call
  create :
      (id : ℕ) (now utc : ℕ → ℕ) (fresh : ℕ) (source : JsonData) (config : Option StreamConfig)
      → Call
  start : (id : ℕ) (now utc : ℕ → ℕ) (stream_id : ℕ) → Call
  complete : (id : ℕ) (now utc : ℕ → ℕ) (h : Float) (stream_id : ℕ) → Call
  end_session : (id : ℕ) (now utc : ℕ → ℕ) → Call
  patch_frames :
      (id : ℕ) (now utc : ℕ → ℕ) (seen : GatInMemoryStreamRepository) (h : Float) (stream_id : ℕ)
      (threshold : Priority) (max_frames : ℕ)
      → Call
  batch :
      (id : ℕ) (now utc : ℕ → ℕ) (seen : GatInMemoryStreamRepository) (h : Float)
      (threshold : Priority) (max_frames : ℕ)
      → Call
  health : (h : Float) (id : ℕ) (now secs : ℕ → ℕ) → Call

unfoldable pub call : Call → GatInMemoryStreamRepository → GatInMemoryStreamRepository
unfolding save_session remove_session create_stream_atomic start_stream_atomic
    complete_stream_atomic close_session_atomic create_stream_patch_frames_atomic
    batch_generate_frames_atomic get_session_health
call (save s) r = save_session r s
call (remove id) r = remove_session r id
call (create id now utc fresh source config) r =
    (create_stream_atomic r id now utc fresh source config).0
call (start id now utc stream_id) r = (start_stream_atomic r id now utc stream_id).0
call (complete id now utc h stream_id) r = (complete_stream_atomic r id now utc h stream_id).0
call (end_session id now utc) r = (close_session_atomic r id now utc).0
call (patch_frames id now utc seen h stream_id threshold max_frames) r =
    (create_stream_patch_frames_atomic r id now utc seen h stream_id threshold max_frames).0
call (batch id now utc seen h threshold max_frames) r =
    (batch_generate_frames_atomic r id now utc seen h threshold max_frames).0
call (health h id now secs) r = (get_session_health h r id now secs).0

unfoldable pub calls : List Call → GatInMemoryStreamRepository → GatInMemoryStreamRepository
unfolding call
calls [] r = r
calls (c ∷ cs) r = calls cs (call c r)

Sound-health :
    (h : Float) (r : GatInMemoryStreamRepository) (id : ℕ) (now secs : ℕ → ℕ)
    → Sound r
    → Sound (get_session_health h r id now secs).0
unfolding get_session_health
Sound-health h r id now secs v = elim (Option-cases (lookup id r.store)) [
  | inl gone ↦ rw (gone, get_session_health) v
  | inr (s, found) ↦
      rw (found, get_session_health) (cached_frames r s secs v (found_own r id s v found)).0
]

Sound-patch_frames :
    (r : GatInMemoryStreamRepository) (id : ℕ) (now utc : ℕ → ℕ)
    (seen : GatInMemoryStreamRepository) (h : Float) (stream_id : ℕ) (threshold : Priority) (m : ℕ)
    → Sound r
    → Sound (create_stream_patch_frames_atomic r id now utc seen h stream_id threshold m).0
unfolding create_stream_patch_frames_atomic
Sound-patch_frames r id now utc seen h stream_id threshold m v =
    elim (Option-cases (lookup id seen.store)) [
      | inl gone ↦ rw (gone, create_stream_patch_frames_atomic) v
      | inr (session, found) ↦
          elim (DomainResult-cases
            (extract_prioritized_patches_for_stream session stream_id threshold)) [
              | inr (e, failed) ↦ rw (found, create_stream_patch_frames_atomic, failed) v
              | inl (patches, made) ↦
                  rw (found, create_stream_patch_frames_atomic, made)
                    (Sound-atomic r id
                      (λ s.
                        drained both
                          (commit_patch_frames_for_stream h s stream_id patches m now utc))
                      v
                      (λ s.
                        Kept-drained both s
                          (commit_patch_frames_for_stream h s stream_id patches m now utc)
                          (Kept-commit_patch_frames_for_stream h s stream_id patches m now utc)))
            ]
    ]

Sound-batch :
    (r : GatInMemoryStreamRepository) (id : ℕ) (now utc : ℕ → ℕ)
    (seen : GatInMemoryStreamRepository) (h : Float) (threshold : Priority) (m : ℕ)
    → Sound r
    → Sound (batch_generate_frames_atomic r id now utc seen h threshold m).0
unfolding batch_generate_frames_atomic
Sound-batch r id now utc seen h threshold m v = elim (Option-cases (lookup id seen.store)) [
  | inl gone ↦ rw (gone, batch_generate_frames_atomic) v
  | inr (session, found) ↦
      let ex = extract_prioritized_patches_for_active_streams session threshold in
      rw (found, batch_generate_frames_atomic)
        (Sound-atomic r id
          (λ s. drained both (attempt_with s (commit_priority_frames h s ex m now utc))) v
          (λ s. Kept-drained both s (attempt_with s (commit_priority_frames h s ex m now utc)) (
            Kept-attempt_with s (commit_priority_frames h s ex m now utc)
              (λ t fs. commit_priority_frames_id h s t ex m now utc fs))))
]

pub Sound-call : (c : Call) (r : GatInMemoryStreamRepository) → Sound r → Sound (call c r)
unfolding call create_stream_atomic start_stream_atomic complete_stream_atomic close_session_atomic
Sound-call (save s) r v = Sound-save r s v
Sound-call (remove id) r v = Sound-remove r id v
Sound-call (create id now utc fresh source config) r v = Sound-atomic r id _ v (λ s.
    Kept-drained both s _ (
      Kept-attempt_with s (create_stream_with_config s fresh source config now utc)
        (λ t i. create_stream_with_config_id s t fresh i source config now utc)))
Sound-call (start id now utc stream_id) r v = Sound-atomic r id _ v (λ s.
    Kept-drained only_events s _ (
      Kept-attempt s (start_stream s stream_id now utc)
        (λ t. start_stream_id s t stream_id now utc)))
Sound-call (complete id now utc h stream_id) r v = Sound-atomic r id _ v (λ s.
    Kept-drained only_events s _ (
      Kept-attempt s (complete_stream h s stream_id now utc)
        (λ t. complete_stream_id h s t stream_id now utc)))
Sound-call (end_session id now utc) r v = Sound-atomic r id _ v (λ s.
    Kept-drained only_events s _ (Kept-attempt s (close s now utc) (λ t. close_id s t now utc)))
Sound-call (patch_frames id now utc seen h stream_id threshold m) r v =
    Sound-patch_frames r id now utc seen h stream_id threshold m v
Sound-call (batch id now utc seen h threshold m) r v = Sound-batch r id now utc seen h threshold m v
Sound-call (health h id now secs) r v = Sound-health h r id now secs v

calls-Sound : (cs : List Call) (r : GatInMemoryStreamRepository) → Sound r → Sound (calls cs r)
unfolding calls
calls-Sound [] r v = v
calls-Sound (c ∷ cs) r v = calls-Sound cs (call c r) (Sound-call c r v)

Sound-new : Sound new
unfolding lookup
Sound-new = record { one_session = tt; one_entry = tt; keyed = λ id. tt; right = λ id. tt }

abbrev pub total_of : DomainResult SessionHealthSnapshot → Option ℕ
total_of (ok x) = some x.total_frames
total_of _ = none

-- Whatever calls a new repository has had, other health queries among them, which filled the cache at any
-- times: the health of a stored session reports as its total of frames exactly the sum over its streams
-- as it is stored now, although the cache answers for five seconds without counting.
pub get_session_health-total :
    (cs : List Call) (h : Float) (id : ℕ) (s : StreamSession) (now secs : ℕ → ℕ)
    → lookup id (calls cs new).store ≡ some s
    → total_of (get_session_health h (calls cs new) id now secs).1 ≡ some (sum_frames 0 s.streams)
unfolding get_session_health
get_session_health-total cs h id s now secs found =
    let v = calls-Sound cs new Sound-new in
    rw (found, get_session_health)
      (ap some (cached_frames (calls cs new) s secs v (found_own (calls cs new) id s v found)).1)
