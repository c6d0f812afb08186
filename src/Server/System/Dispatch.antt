-- ===== src/Server/System/Dispatch.antt =====
-- A step of a handler, whatever its phase and its input.
use chatflow.Prelude.{
  String, ◌≡◌, refl, inl, inr, true, false, Option, none, some, if◌then◌else◌, Option-cases,
}
use chatflow.Prelude.Int.{ℤ}
use chatflow.Models.{QueueMessage}
use chatflow.Server.{Server, Broker, ok}
use chatflow.Server.Rooms.{record_failure}
use chatflow.Server.Handler.{
  Readings, Session, Phase, Next, Handler, Input, upgrading, joining, publishing, reading, waiting,
  no_writer, writing, write_done, upgraded, upgrade_failed, received, read_failed, published,
  context_done, writer_exited, publish_to, abandon_publish, dispatch, resume, finish,
  chat_room_handler,
}
use chatflow.Server.Invariant.{Inv, Safely}
use chatflow.Server.Invariant.Growth.{Grows-refl}
use chatflow.Server.System.Sessions.{
  SessionInv, PhaseInv, StepOk, SessionInv-Grows, Inv-counts, Grows-counts,
}
use chatflow.Server.System.Steps.{
  resume-Step, finish-StepOk, fail-StepOk, join-Step, stay, message-Step, loss-Step,
}

module _ {R : Type 0} (b : Broker R) (parse_time : String → Option ℤ) where
  publish-Step :
      (s : Server R) (h : Handler) (session : Session) (q : QueueMessage) (n : Next) (o : Option R)
      → Inv s
      → SessionInv s h.room_id session
      → PhaseInv s h.room_id h.phase
      → Safely (StepOk s h) (publish_to b parse_time s h session q n o)
  unfolding publish_to
  publish-Step s h session q n none i si pi = resume-Step s s h session n (Grows-refl s) i si
  publish-Step s h session q n (some rabbit) i si pi =
      elim (Option-cases (b.publish rabbit h.room_id q)) [
        | inl e ↦ rw (e, publish_to, Safely) (stay b parse_time s h i pi)
        | inr (rabbit', e) ↦
            rw (e, publish_to)
              (resume-Step s _ h session n (Grows-counts refl refl refl)
                (Inv-counts refl refl refl i) (SessionInv-Grows (Grows-counts refl refl refl) si))
      ]

  abandon-Step :
      (s : Server R) (h : Handler) (session : Session) (n : Next) (o : Option R)
      → Inv s
      → SessionInv s h.room_id session
      → PhaseInv s h.room_id h.phase
      → Safely (StepOk s h) (abandon_publish b parse_time s h session n o)
  unfolding abandon_publish
  abandon-Step s h session n none i si pi = stay b parse_time s h i pi
  abandon-Step s h session n (some rabbit) i si pi =
      elim s.cancelled
        as (λ c. Safely (StepOk s h) (
          if c
          then resume (record s { rabbit = some (b.abandon rabbit) }) h session n
          else ok (s, h))) [
            | true ↦
                resume-Step s _ h session n (Grows-counts refl refl refl)
                  (Inv-counts refl refl refl i) (SessionInv-Grows (Grows-counts refl refl refl) si)
            | false ↦ stay b parse_time s h i pi
          ]

  phase_at :
      (s : Server R) (h : Handler) (phase : Phase)
      → h.phase ≡ phase
      → PhaseInv s h.room_id phase
      → PhaseInv s h.room_id h.phase
  phase_at s h phase at pi = rw at pi

  dispatch-Step :
      (t : Readings) (s : Server R) (h : Handler) (phase : Phase) (input : Input)
      → h.phase ≡ phase
      → Inv s
      → PhaseInv s h.room_id phase
      → Safely (StepOk s h) (dispatch b parse_time t s h phase input)
  unfolding dispatch
  dispatch-Step t s h upgrading upgraded at i pi = record {
    inv = i;
    grows = Grows-refl s;
    same_room = refl;
    phase_inv = tt;
  }
  dispatch-Step t s h upgrading upgrade_failed at i pi = record {
    inv = unfold record_failure in Inv-counts refl refl refl i;
    grows = unfold record_failure in Grows-counts refl refl refl;
    same_room = refl;
    phase_inv = tt;
  }
  dispatch-Step t s h joining (received msg) at i pi = join-Step b parse_time t s h msg i
  dispatch-Step t s h joining (read_failed clean) at i pi = fail-StepOk b parse_time s h i
  dispatch-Step t s h (publishing session q n) published at i pi =
      publish-Step s h session q n s.rabbit i pi (rw at pi)
  dispatch-Step t s h (publishing session q n) context_done at i pi =
      abandon-Step s h session n s.rabbit i pi (rw at pi)
  dispatch-Step t s h (reading session) (received msg) at i pi =
      message-Step b parse_time t s h session msg i pi (rw at pi)
  dispatch-Step t s h (reading session) (read_failed clean) at i pi =
      loss-Step b parse_time t s h session clean i pi
  dispatch-Step t s h waiting writer_exited at i pi =
      elim h.writer
        as (λ w. Safely (StepOk s h) (elim w [
          | no_writer ↦ ok (s, h)
          | writing p ↦ ok (s, h)
          | write_done ↦ ok (finish s h)
        ])) [
          | no_writer ↦ stay b parse_time s h i (rw at tt)
          | writing p ↦ stay b parse_time s h i (rw at tt)
          | write_done ↦ finish-StepOk s s h h refl (Grows-refl s) i
        ]
  dispatch-Step t s h phase input at i pi = stay b parse_time s h i (phase_at s h _ at pi)

  pub chat_room_handler-Step :
      (t : Readings) (s : Server R) (h : Handler) (input : Input)
      → Inv s
      → PhaseInv s h.room_id h.phase
      → Safely (StepOk s h) (chat_room_handler b parse_time t s h input)
  unfolding chat_room_handler
  chat_room_handler-Step t s h input i pi = dispatch-Step t s h h.phase input refl i pi
