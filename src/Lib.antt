-- ===== src/Lib.antt =====
-- Smokejumper: from an HTTP alert to one ticket and an audit trail.
--
-- A delivery is verified, normalized to an event (B2), and admitted into the table `events`, where
-- events of one fingerprint within fifteen minutes are one incident. The table is an outbox: a
-- dispatch copies each admitted event to a Redis stream and writes the receipt back. The worker takes
-- a message, opens a run, triages the event, applies the conclusion as one ticket or one comment, and
-- closes the run, recording each step in an append-only file. A recovery closes the window, and with
-- it the tickets.
--
-- Which file models what:
--   Prelude: Python's `str` as code points, lists, exceptions (Raise), `sorted` (Sorted) and
--     `sorted(set(...))` (Distinct).
--   Contracts: src/smokejumper/contracts (fingerprint.py, events.py, base.py, conclusions.py,
--     assignments.py), and JSON documents as `json.loads` returns them.
--   Persistence: the tables of migrations/versions/0001 to 0004, statements over them (Table) and
--     transactions (Commit).
--   Queue: src/smokejumper/queue/producer.py.
--   Receiver.Repository, Receiver.Delivery, Receiver.Verification, Receiver.Routes: the files of
--     those names in src/smokejumper/receiver; Receiver.Normalizers: its folder normalizers.
--   Actions: src/smokejumper/actions/service.py. Intelligence: src/smokejumper/intelligence/triage.py.
--   Recorder: src/smokejumper/recorder/writer.py. Worker: src/smokejumper/worker.py.
--   Config: src/smokejumper/config.py: the selections, the gate at boot (Boot) and the layers under
--     the settings (Layers). App: src/smokejumper/app.py. Stubs: src/smokejumper/ports/stubs.py.
--   HostPorts: scripts/check_host_ports.py. DocContract: scripts/check_doc_contract.py.
--   Swimlane: architecture/_gen/swimlane.py, its scenarios.py (Scenarios) and journeys.py (Journeys),
--     with places in quarters of a pixel.
--   System: the receiver, the outbox and the worker over one database, stream and audit trail, as a
--     step relation. A step is a request, a single transaction of one, one offer of the outbox, or one
--     effect of the worker (Worker.Turns: a transaction, a line of the audit trail, an
--     acknowledgement). So transactions of several requests and of the worker alternate in any order,
--     a message of the stream may be taken any number of times, and the worker may be stopped and
--     started anywhere, within one process and so with one recorder. `run_worker` itself reads only
--     new messages (">") and reclaims no pending one: that a message comes again, as when an operator
--     claims it, and that the worker starts again after a failed acknowledgement has ended it, are
--     further executions that the relation allows: it is for statements of safety.
--   Examples: the theorems at concrete inputs.
-- A function keeps its name; a coroutine is a function from the state it finds to a result and the
-- state it leaves, so that what it changed before it raised stays changed. A transaction of
-- `engine.begin()` changes all or nothing. The statements of one transaction run alone: the program
-- takes an advisory lock or row locks for each fingerprint, run and event.
--
-- Parameters stand for code outside the repository: SHA-256 and HMAC in hexadecimal, `uuid4`, the
-- clock, `json.loads`, `ipaddress`, `int` of a text, `datetime.fromtimestamp` and `fromisoformat`,
-- `repr` of a float, a list or a dict, the environment of the process, whether a port can be bound,
-- what `lsof` prints, the files of a checkout and the pattern of a claim of status, what becomes
-- of an attempt to deliver (sent, refused, stored with the answer lost, or answered with the receipt
-- rolled back), whether the database answers otherwise, and what the disk does with one line.
--
-- Of the exceptions only those that `except (ValueError, TypeError)` catches are told from the
-- others. `lower` and `upper` are exact as far as the program's comparisons with ASCII words can
-- tell. Times are natural numbers of microseconds, UUIDs are numbers, confidences are tenths. Text in
-- a `jsonb` column or on the stream is what an event was dumped to, or junk that does not load: the
-- round trip of an event through its JSON text is pydantic's. A lone surrogate is refused in a
-- title, a body, a key or an entity, but not in the raw document that an event keeps. The
-- digits of a number are written on fuel, for which the number itself is enough; every other loop is
-- structural.
--
-- Not modelled: logging; a line of the audit trail of which only a part reaches the disk; a COMMIT
-- that takes effect and raises all the same; the trimming of the stream; how the event loop creates
-- and cancels the two tasks; how pydantic assembles and validates the settings; the command line; the random token of a
-- stub; the protocols of the ports, which have no bodies; the contracts that no code uses; the
-- renderings of documents; the SVG text of a diagram, and architecture/_gen/c3_components.py, which
-- only draws. A loop without an end is modelled by its turns: those of the dispatcher are counted,
-- those of the worker are the polls that it makes before it is stopped.
pub mod Prelude
pub mod Contracts
pub mod Persistence
pub mod Queue
pub mod Receiver
pub mod Actions
pub mod Intelligence
pub mod Recorder
pub mod Worker
pub mod Config
pub mod System
pub mod HostPorts
pub mod DocContract
pub mod Swimlane
pub mod Stubs
pub mod App
pub mod Examples
