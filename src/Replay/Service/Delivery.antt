-- ===== src/Replay/Service/Delivery.antt =====
-- No event of a session is lost, sent twice or sent out of order by the commands that pause, resume or stop it.
use industrial_reliability_p.Base.{
  ℕ, ◌≡◌, refl, sym, ap, subst, ◌∙◌, Bool, true, false, none, some, List, [], ◌∷◌, ◌++◌, is_some,
  all, append_assoc, if◌then◌else◌, Result, Error, Option, if_intro, arith, Bool-cases,
  Option-cases, Result-cases, inl, inr,
}
use industrial_reliability_p.Platform.{Uuid, Platform}
use industrial_reliability_p.Messages.{
  Action, start, pause, resume, stop, ReplayState, running, paused, stopped, ReplayCommandV1,
  ReplayStatusV1, TelemetryEventV1,
}
use industrial_reliability_p.Replay.Controller.{
  ReplayController, apply, mark_failed, mark_completed,
}
use industrial_reliability_p.Replay.Source.{TableRow, Origin, iter_events}
use industrial_reliability_p.Replay.Store.{ReplayCheckpoint, update_replay_checkpoint_state}
use industrial_reliability_p.Replay.Session.{
  Phase, ready, holding, sent, closing, done, Session, Service, Input, command, turn, send_fails,
  restart, is_completed,
}
use industrial_reliability_p.Replay.Service.{
  new_session, start_cmd_of, session_for, handle_control_command, clear_pause, set_pause, set_stop,
  handle_action, handle_command, fail_session, complete_session, next_event, take_turn, step,
}

module _ {F : Type 0} where
  -- the event that the task is about to send, and the rest of its stream
  abbrev pub pending : Phase F → List (TelemetryEventV1 F) → List (TelemetryEventV1 F)
  pending (holding event) rest = event ∷ rest
  pending _ rest = rest

  abbrev pub unsent : Session F → List (TelemetryEventV1 F)
  unsent t = pending t.phase t.remaining.events

  -- a task that ends with a COMPLETED status has nothing left to send
  abbrev pub ClosedDrained : Phase F → List (TelemetryEventV1 F) → Type 0
  ClosedDrained (closing ctrl) left = if is_completed ctrl.state then left ≡ [] else Unit
  ClosedDrained _ left = Unit

-- turns of the task and commands other than START
abbrev pub is_ordinary : Input → Bool
is_ordinary turn = true
is_ordinary (command cmd) = elim cmd.action [
  | start ↦ false
  | pause ↦ true
  | resume ↦ true
  | stop ↦ true
]
is_ordinary _ = false

module _ (P : Platform) (origin : Origin) (table : List (TableRow P.Float))
    (task_message_id task_command_id : Uuid) (now : ℕ) where
  open P use {Float}

  -- what is sent, with what is left, is `events`
  pub record Delivers (events : List (TelemetryEventV1 Float)) (s : Service Float) : Type 0 where
    pub session : Session Float
    pub active : s.active_session ≡ some session
    pub whole : s.telemetry ++ unsent session ≡ events
    pub drained : ClosedDrained session.phase session.remaining.events

  -- a session with the same phase and the same rest delivers the same
  moved :
      (events : List (TelemetryEventV1 Float)) (s : Service Float) (d : Delivers events s)
      (t u : Session Float) (rows : List ReplayCheckpoint) (statuses : List (Result ReplayStatusV1))
      (raised : Option Error)
      → s.active_session ≡ some t
      → u.phase ≡ t.phase
      → u.remaining ≡ t.remaining
      → Delivers events (record {
        active_session = some u;
        checkpoints = rows;
        telemetry = s.telemetry;
        statuses = statuses;
        raised = raised;
      })
  moved events s d t u rows statuses raised at p r =
      let e : t ≡ d.session = some-inj (sym at ∙ d.active) in
      record {
        session = u;
        active = refl;
        whole =
            ap (λ x. s.telemetry ++ pending x u.remaining.events) (p ∙ ap (λ x. x.phase) e)
            ∙ ap (λ x. s.telemetry ++ pending d.session.phase x.events)
                (r ∙ ap (λ x. x.remaining) e)
            ∙ d.whole;
        drained =
            subst (λ x. ClosedDrained x u.remaining.events) (sym (p ∙ ap (λ x. x.phase) e))
              (subst (λ x. ClosedDrained d.session.phase x.events)
                (sym (r ∙ ap (λ x. x.remaining) e)) d.drained);
      }
    where
      some-inj : {x y : Session Float} → some x ≡ some y → x ≡ y
      some-inj h = cc

  session_for-active :
      (cmd : ReplayCommandV1) (s : Service Float) (t : Session Float)
      → session_for P origin table task_message_id task_command_id now cmd s ≡ some t
      → s.active_session ≡ some t
  unfolding session_for
  session_for-active cmd s t h = ground arith

  abbrev stopped_task : Session Float → Session Float
  stopped_task = set_stop P origin table task_message_id task_command_id now

  control-Delivers :
      (events : List (TelemetryEventV1 Float)) (cmd : ReplayCommandV1) (state : ReplayState)
      (set_events : Session Float → Session Float) (s : Service Float)
      → ((t : Session Float)
          → ((set_events t).phase ≡ t.phase) × ((set_events t).remaining ≡ t.remaining))
      → Delivers events s
      → Delivers events (
          handle_control_command P origin table task_message_id task_command_id now cmd state
            set_events s)
  unfolding handle_control_command
  control-Delivers events cmd state set_events s same d =
      elim (Option-cases (session_for P origin table task_message_id task_command_id now cmd s)) [
        | inl absent ↦ rw (handle_control_command, absent) d
        | inr (t, found) ↦ elim (Result-cases (apply t.controller cmd)) [
          | inr (e, refused) ↦
              rw (handle_control_command, found, refused)
                (moved events s d t (stopped_task t) s.checkpoints s.statuses (some e)
                  (session_for-active cmd s t found) refl refl)
          | inl (ctrl, applied) ↦
              elim (Result-cases
                (update_replay_checkpoint_state ctrl.session_id state s.checkpoints)) [
                  | inr (e, missing) ↦
                      rw (handle_control_command, found, applied, missing)
                        (moved events s d t (stopped_task t) s.checkpoints s.statuses (some e)
                          (session_for-active cmd s t found) refl refl)
                  | inl (rows, updated) ↦
                      rw (handle_control_command, found, applied, updated)
                        (moved events s d t (set_events (record t { controller = ctrl })) rows _
                          s.raised (session_for-active cmd s t found)
                          (same (record t { controller = ctrl })).0
                          (same (record t { controller = ctrl })).1)
                ]
        ]
      ]

  -- the task between two events
  next-Delivers :
      (events : List (TelemetryEventV1 Float)) (s : Service Float) (t : Session Float)
      (rest : List (TelemetryEventV1 Float))
      → t.phase ≡ ready
      → t.remaining.events ≡ rest
      → s.telemetry ++ rest ≡ events
      → Delivers events s
      → Delivers events (next_event P origin table task_message_id task_command_id now t rest s)
  unfolding next_event fail_session complete_session mark_failed mark_completed
  next-Delivers events s t [] p r whole d = elim (Bool-cases (is_some t.remaining.failure)) [
    | inl raised ↦
        rw raised (record { session = _; active = refl; whole = rw r whole; drained = tt })
    | inr clean ↦ elim (Bool-cases t.is_paused) [
      | inl waits ↦ rw (clean, waits) d
      | inr on ↦ elim (Bool-cases t.is_stopped) [
        | inl halted ↦
            rw (clean, on, halted)
              (record { session = _; active = refl; whole = rw r whole; drained = tt })
        | inr live ↦
            rw (clean, on, live)
              (record { session = _; active = refl; whole = rw r whole; drained = r })
      ]
    ]
  ]
  next-Delivers events s t (event ∷ rest) p r whole d = elim (Bool-cases t.is_stopped) [
    | inl halted ↦
        rw halted (record { session = _; active = refl; whole = rw r whole; drained = tt })
    | inr live ↦ elim (Bool-cases t.is_paused) [
      | inl waits ↦ rw (live, waits) d
      | inr on ↦ elim (Bool-cases t.is_recovered) [
        | inl recovered ↦
            rw (live, on, recovered)
              (record { session = _; active = refl; whole = whole; drained = tt })
        | inr first ↦
            rw (live, on, first)
              (record { session = _; active = refl; whole = whole; drained = tt })
      ]
    ]
  ]

  -- a turn of the task
  turn-Delivers :
      (events : List (TelemetryEventV1 Float)) (s : Service Float) (t : Session Float)
      (phase : Phase Float)
      → t.phase ≡ phase
      → s.telemetry ++ pending phase t.remaining.events ≡ events
      → Delivers events s
      → Delivers events (take_turn P origin table task_message_id task_command_id now t phase s)
  unfolding take_turn
  turn-Delivers events s t ready p whole d =
      next-Delivers events s t t.remaining.events p refl whole d
  turn-Delivers events s t (holding event) p whole d = record {
    session = _;
    active = refl;
    whole = append_assoc s.telemetry (event ∷ []) t.remaining.events ∙ whole;
    drained = tt;
  }
  turn-Delivers events s t (sent event) p whole d = record {
    session = _;
    active = refl;
    whole = whole;
    drained = tt;
  }
  turn-Delivers events s t (closing ctrl) p whole d = record {
    session = _;
    active = refl;
    whole = whole;
    drained = tt;
  }
  turn-Delivers events s t done p whole d = d

  action-Delivers :
      (events : List (TelemetryEventV1 Float)) (cmd : ReplayCommandV1) (s : Service Float)
      (action : Action)
      → elim action [ start ↦ false | pause ↦ true | resume ↦ true | stop ↦ true ] ≡ true
      → Delivers events s
      → Delivers events
          (handle_action P origin table task_message_id task_command_id now action cmd s)
  unfolding handle_action
  action-Delivers events cmd s start o d = absurd (cc)
  action-Delivers events cmd s pause o d =
      control-Delivers events cmd paused
        (clear_pause P origin table task_message_id task_command_id now) s (λ t. (refl, refl)) d
  action-Delivers events cmd s resume o d =
      control-Delivers events cmd running
        (set_pause P origin table task_message_id task_command_id now) s (λ t. (refl, refl)) d
  action-Delivers events cmd s stop o d =
      control-Delivers events cmd stopped
        (set_stop P origin table task_message_id task_command_id now) s (λ t. (refl, refl)) d

  step-Delivers :
      (events : List (TelemetryEventV1 Float)) (input : Input) (s : Service Float)
      → is_ordinary input ≡ true
      → Delivers events s
      → Delivers events (step P origin table task_message_id task_command_id now input s)
  unfolding step handle_command
  step-Delivers events (command cmd) s o d =
      if_intro (Delivers events) (is_some s.raised) s
        (handle_command P origin table task_message_id task_command_id now cmd s) (λ ended. d)
        (λ open_. action-Delivers events cmd s cmd.action o d)
  step-Delivers events turn s o d =
      rw (step, d.active) (turn-Delivers events s d.session d.session.phase refl d.whole d)
  step-Delivers events send_fails s o d = absurd (cc)
  step-Delivers events restart s o d = absurd (cc)

  abbrev pub run : List Input → Service Float → Service Float
  run [] s = s
  run (input ∷ inputs) s =
      run inputs (step P origin table task_message_id task_command_id now input s)

  -- Delivery: take a service whose active session is the task that a START command has just created. After
  -- any sequence of turns of the task and of commands other than START, in any order, what has been sent
  -- since then, followed by what the task has yet to send, is exactly the stream of the command; and when
  -- the task is about to send its COMPLETED status, nothing is left.
  pub run-Delivers :
      (ctrl : ReplayController) (s : Service Float) (inputs : List Input)
      → s.active_session
        ≡ some (new_session P origin table task_message_id task_command_id now ctrl)
      → all is_ordinary inputs ≡ true
      → Delivers
          (s.telemetry
            ++ (iter_events P origin table
                (start_cmd_of P origin table task_message_id task_command_id now ctrl)
                1
                none).events)
          (run inputs s)
  run-Delivers ctrl s inputs at o =
      go inputs s o (record { session = _; active = at; whole = refl; drained = tt })
    where
      go :
          {events : List (TelemetryEventV1 Float)} (inputs : List Input) (s : Service Float)
          → all is_ordinary inputs ≡ true
          → Delivers events s
          → Delivers events (run inputs s)
      go [] s o d = d
      go (input ∷ inputs) s o d =
          go inputs _ (ground arith) (step-Delivers _ input s (ground arith) d)
