-- ===== src/Session/Counters/Steps.antt =====
-- The operations on one stream, and the stream counters of a session.
use pjs.Prelude.{ℕ, ◌-◌, ◌≡◌, refl, subst, true, false, Option, none, some, arith, nat_eq}
use pjs.Prelude.Map.{
  lookup, update, tally-update, tally-insert, tally-le-length, length-update, length-insert,
}
use pjs.Prelude.Text.{Text}
use pjs.Outcome.{ok, >>=-eq-ok}
use pjs.Words.{add_u64, add_u64_fits}
use pjs.F64.{Float}
use pjs.JsonData.{JsonData}
use pjs.Stream.{
  Stream, StreamState, is_active, StreamConfig, start_streaming, fail, update_config, duration,
  commit_patch_frames, is_streaming,
}
use pjs.Stream
use pjs.Session.{StreamSession}
use pjs.Session.Basics.{has_failed}
use pjs.Session.Streams.{
  stream, put, update_stream_config, create_stream, create_stream_with_config, start_stream,
  complete_stream, fail_stream,
}
use pjs.Session.Counters.{Inv, has_completed, SameCounts-Inv, same_streams, sampled-counts}

-- The life cycle of the child, as its three tests see it.
start-tests :
    (u t : Stream) (utc : ℕ → ℕ)
    → start_streaming u utc ≡ ok t
    → (is_active t ≡ is_active u)
      × (has_completed t ≡ has_completed u)
      × (has_failed t ≡ has_failed u)
unfolding start_streaming
start-tests u t utc e = ground arith

complete-tests :
    (u t : Stream) (utc : ℕ → ℕ)
    → Stream.complete_stream u utc ≡ ok t
    → (is_active u ≡ true)
      × (has_completed u ≡ false)
      × (has_failed u ≡ false)
      × (is_active t ≡ false)
      × (has_completed t ≡ true)
      × (has_failed t ≡ false)
unfolding Stream.complete_stream
complete-tests u t utc e = ground arith

fail-tests :
    (u t : Stream) (message : Text) (utc : ℕ → ℕ)
    → fail u message utc ≡ ok t
    → (is_active u ≡ true)
      × (has_completed u ≡ false)
      × (has_failed u ≡ false)
      × (is_active t ≡ false)
      × (has_completed t ≡ false)
      × (has_failed t ≡ true)
unfolding fail
fail-tests u t message utc e = ground arith

config-state :
    (u t : Stream) (c : StreamConfig) (utc : ℕ → ℕ)
    → update_config u c utc ≡ ok t
    → t.state ≡ u.state
unfolding update_config
config-state u t c utc e = ground arith

-- What `stream` finds is in the map.
pub found_in :
    (s : StreamSession) (id : ℕ) (u : Stream) → stream s id ≡ ok u → lookup id s.streams ≡ some u
found_in s id u e = ground arith

pub start_stream-Inv :
    (s t : StreamSession) (id : ℕ) (now utc : ℕ → ℕ)
    → Inv s
    → start_stream s id now utc ≡ ok t
    → Inv t
unfolding start_stream
start_stream-Inv s t id now utc v e =
    let (u, e1, r1) = >>=-eq-ok (stream s id) _ e in
    let (u', e2, r2) = >>=-eq-ok (start_streaming u utc) _ r1 in
    let found = found_in s id u e1 in
    let tests = start-tests u u' utc e2 in
    ground (
      arith,
      tally-update is_active id u' u s.streams found,
      tally-update has_completed id u' u s.streams found,
      tally-update has_failed id u' u s.streams found,
      length-update id u' s.streams,
    )

pub complete_stream-Inv :
    (h : Float) (s t : StreamSession) (id : ℕ) (now utc : ℕ → ℕ)
    → Inv s
    → complete_stream h s id now utc ≡ ok t
    → Inv t
unfolding complete_stream
complete_stream-Inv h s t id now utc v e =
    let (u, e1, r1) = >>=-eq-ok (stream s id) _ e in
    let (u', e2, r2) = >>=-eq-ok (Stream.complete_stream u utc) _ r1 in
    let found = found_in s id u e1 in
    let tests = complete-tests u u' utc e2 in
    ground (
      arith,
      tally-update is_active id u' u s.streams found,
      tally-update has_completed id u' u s.streams found,
      tally-update has_failed id u' u s.streams found,
      tally-le-length has_completed (update id u' s.streams),
      length-update id u' s.streams,
      add_u64_fits s.stats.completed_streams 1,
      sampled-counts h (duration u') (record s.stats {
        active_streams = s.stats.active_streams - 1;
        completed_streams = add_u64 s.stats.completed_streams 1;
      }),
    )

pub fail_stream-Inv :
    (s t : StreamSession) (id : ℕ) (message : Text) (now utc : ℕ → ℕ)
    → Inv s
    → fail_stream s id message now utc ≡ ok t
    → Inv t
unfolding fail_stream
fail_stream-Inv s t id message now utc v e =
    let (u, e1, r1) = >>=-eq-ok (stream s id) _ e in
    let (u', e2, r2) = >>=-eq-ok (fail u message utc) _ r1 in
    let found = found_in s id u e1 in
    let tests = fail-tests u u' message utc e2 in
    ground (
      arith,
      tally-update is_active id u' u s.streams found,
      tally-update has_completed id u' u s.streams found,
      tally-update has_failed id u' u s.streams found,
      tally-le-length has_failed (update id u' s.streams),
      length-update id u' s.streams,
      add_u64_fits s.stats.failed_streams 1,
    )

pub update_stream_config-Inv :
    (s t : StreamSession) (id : ℕ) (c : StreamConfig) (now utc : ℕ → ℕ)
    → Inv s
    → update_stream_config s id c now utc ≡ ok t
    → Inv t
unfolding update_stream_config
update_stream_config-Inv s t id c now utc v e =
    let (u, e1, r1) = >>=-eq-ok (stream s id) _ e in
    let (u', e2, r2) = >>=-eq-ok (update_config u c utc) _ r1 in
    let kept =
      SameCounts-Inv s (put s id u')
        (same_streams s id u u' (found_in s id u e1) (config-state u u' c utc e2)) v in
    ground arith

pub create_stream-Inv :
    (s t : StreamSession) (fresh id : ℕ) (d : JsonData) (now utc : ℕ → ℕ)
    → Inv s
    → lookup fresh s.streams ≡ none
    → create_stream s fresh d now utc ≡ ok (t, id)
    → Inv t
unfolding create_stream
create_stream-Inv s t fresh id d now utc v free e =
    let u = Stream.new fresh s.id d s.config.default_stream_config utc in
    ground (
      arith,
      tally-insert is_active fresh u s.streams free,
      tally-insert has_completed fresh u s.streams free,
      tally-insert has_failed fresh u s.streams free,
      tally-le-length is_active s.streams,
      length-insert fresh u s.streams free,
      add_u64_fits s.stats.total_streams 1,
      add_u64_fits s.stats.active_streams 1,
      new_state fresh s.id d s.config.default_stream_config utc,
    )
  where
    new_state :
        (fresh session : ℕ) (d : JsonData) (c : StreamConfig) (utc : ℕ → ℕ)
        → (Stream.new fresh session d c utc).state ≡ StreamState.preparing
    new_state fresh session d c utc = unfold Stream.new in refl

pub create_stream_with_config-Inv :
    (s t : StreamSession) (fresh id : ℕ) (d : JsonData) (c : Option StreamConfig) (now utc : ℕ → ℕ)
    → Inv s
    → lookup fresh s.streams ≡ none
    → create_stream_with_config s fresh d c now utc ≡ ok (t, id)
    → Inv t
unfolding create_stream_with_config
create_stream_with_config-Inv s t fresh id d none now utc v free e =
    create_stream-Inv s t fresh id d now utc v free e
create_stream_with_config-Inv s t fresh id d (some c) now utc v free e =
    let ((s', id'), e1, r1) = >>=-eq-ok (create_stream s fresh d now utc) _ e in
    let (s'', e2, r2) = >>=-eq-ok (update_stream_config s' id' c _ _) _ r1 in
    let kept =
      update_stream_config-Inv s' s'' id' c _ _
        (create_stream-Inv s s' fresh id' d now utc v free e1) e2 in
    let same : s'' ≡ t = cc r2 in subst Inv same kept
