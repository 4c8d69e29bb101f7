-- ===== src/State/Permits.antt =====
-- state.go: the sections of a permit (release, beginCall, endCall, finishRelease, shrinkRequest)
-- and of the runtime state behind it (the counters, beginClose and finishClose).
use repost_go.Prelude.Int.{ℤ, pos, ◌+ℤ◌, ◌-ℤ◌, leb_ℤ, ltb_ℤ}
use repost_go.Prelude.{Bool, true, false, not, ◌&&◌, ◌||◌, if◌then◌else◌}
use repost_go.State.{
  RuntimeState, RuntimeDiagnostics, OperationPermit, request_workspace_bytes, saturating_add,
}

-- `p.activeCalls == 0`
abbrev pub no_calls : OperationPermit → Bool
no_calls p = leb_ℤ p.active_calls (pos 0) && leb_ℤ (pos 0) p.active_calls

-- The section of `release` under `ownershipMu`; the flag is `finalize`.
unfoldable pub release : OperationPermit → OperationPermit × Bool
release p =
    let finalize = no_calls p && not p.released in
    (
      record p { release_requested = true; released = if finalize then true else p.released },
      finalize,
    )

unfoldable pub begin_call : OperationPermit → OperationPermit
begin_call p = record p { active_calls = p.active_calls +ℤ pos 1 }

-- The section of `endCall` under `ownershipMu`; the flag is `finalize`.
unfoldable pub end_call : OperationPermit → OperationPermit × Bool
end_call p =
    let q = record p { active_calls = p.active_calls -ℤ pos 1 } in
    let finalize = no_calls q && q.release_requested && not q.released in
    (record q { released = if finalize then true else q.released }, finalize)

-- `finishRelease`, which runs where `finalize` was set: the section under `state.mu`, and `wg.Done`.
unfoldable pub finish_release : OperationPermit → RuntimeState → RuntimeState
finish_release p s = record s {
  wg = s.wg -ℤ pos 1;
  diagnostics = record (s.diagnostics) {
    in_flight_operations = s.diagnostics.in_flight_operations -ℤ pos 1;
    buffered_bytes = s.diagnostics.buffered_bytes -ℤ p.held_bytes;
  };
}

unfoldable pub shrink_request : OperationPermit → RuntimeState → ℤ → OperationPermit × RuntimeState
shrink_request p s serialized_bytes =
    if ltb_ℤ serialized_bytes (pos 0) || leb_ℤ (pos request_workspace_bytes) serialized_bytes
    then (p, s)
    else (
      record p { held_bytes = p.held_bytes -ℤ (pos request_workspace_bytes -ℤ serialized_bytes) },
      record s {
        diagnostics = record (s.diagnostics) {
          buffered_bytes =
              s.diagnostics.buffered_bytes -ℤ (pos request_workspace_bytes -ℤ serialized_bytes);
        };
      },
    )

unfoldable pub snapshot : RuntimeState → RuntimeDiagnostics
snapshot s = s.diagnostics

unfoldable pub record_response_header_limit_failure : RuntimeState → RuntimeState
unfolding saturating_add
record_response_header_limit_failure s = record s {
  diagnostics = record (s.diagnostics) {
    response_header_limit_failures =
        saturating_add s.diagnostics.response_header_limit_failures (pos 1);
  };
}

unfoldable pub record_response_close_failure : RuntimeState → RuntimeState
unfolding saturating_add
record_response_close_failure s = record s {
  diagnostics = record (s.diagnostics) {
    response_close_failures = saturating_add s.diagnostics.response_close_failures (pos 1);
  };
}

unfoldable pub add_dropped_observer_events : ℤ → RuntimeState → RuntimeState
unfolding saturating_add
add_dropped_observer_events delta s = record s {
  diagnostics = record (s.diagnostics) {
    dropped_observer_events = saturating_add s.diagnostics.dropped_observer_events delta;
  };
}

unfoldable pub add_observer_failure : RuntimeState → RuntimeState
unfolding saturating_add
add_observer_failure s = record s {
  diagnostics = record (s.diagnostics) {
    observer_failures = saturating_add s.diagnostics.observer_failures (pos 1);
  };
}

unfoldable pub add_telemetry_failure : RuntimeState → RuntimeState
unfolding saturating_add
add_telemetry_failure s = record s {
  diagnostics = record (s.diagnostics) {
    telemetry_failures = saturating_add s.diagnostics.telemetry_failures (pos 1);
  };
}

-- The flag tells whether this call began the close.
unfoldable pub begin_close : RuntimeState → RuntimeState × Bool
begin_close s =
    if s.closing || s.diagnostics.closed then (s, false) else (record s { closing = true }, true)

unfoldable pub finish_close : RuntimeState → RuntimeState
finish_close s =
    if s.diagnostics.closed
    then s
    else record s { diagnostics = record (s.diagnostics) { closed = true } }

-- `waitForOperations` returns where the WaitGroup is at zero.
abbrev pub operations_settled : RuntimeState → Bool
operations_settled s = leb_ℤ s.wg (pos 0) && leb_ℤ (pos 0) s.wg
