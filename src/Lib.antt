-- ===== src/Lib.antt =====
-- ShiftZero HERO-002: the web application of Judge Mode (apps/web), and the core of the mission service
-- (src/shiftzero).
--
-- The application is one page with two stateful components, and this library models both.
--
-- - The console, apps/web/components/mission-console.tsx (`MissionConsole`): it fetches nine evidence
--   documents when it is mounted, replays the fifteen steps of the hero mission on an interval timer,
--   takes three operator decisions, and renders one of five views.
-- - The lab, apps/web/components/field-test-simulator.tsx (`FieldTestSimulator`), one of these views:
--   it runs a synthetic obstacle rehearsal on a 50 ms timer, draws it, shows its event log and its
--   verdicts A06 and A07, and downloads the evidence of a finished run.
--
-- The mission service is a Python package of its own, whose evidence documents the console shows. Its
-- core is modelled: the states of a mission, the planner of routes, the safety checks of a route, and
-- the human approval that a route is sealed with. A snapshot of the warehouse goes to the planner; its
-- plan, a proposal and the snapshot go to the safety checks; their proof and an approval token make the
-- sealed proof.
--
-- Which file models what:
--
-- - Common: Boolean tests, lists, decimal digits and joined texts, as the language has them.
-- - Html: what a component returns, an element tree with its handlers; which clicks it takes (`Offers`).
-- - Numbers: the floating-point numbers, a parameter. Times, steps and counters are integers in the
--   program and natural numbers here; the program never makes one of them negative.
-- - FieldTest/Schedule: `SimulationPhase`, `SimulationEvent`, `schedule`, `phaseAt`, and the derived
--   `completeAtMs` and `visibleEvents`. FieldTest/Timeline: how these agree.
-- - FieldTest/Session: the state variables of the lab as the record `Session`; `tick` is the callback of
--   its interval, and `startOrPause`, `reset`, `injectBlockage` and the setters of the buttons are
--   functions on it, gathered in `perform`.
-- - FieldTest/Motion: the routes, `pointAlong`, `pathData`, `heroPosition` and the traffic.
--   FieldTest/Position: where the vehicles can be.
-- - FieldTest/Export: the object that `exportRehearsal` hands to the download; `Dates` stands for the
--   two conversions of `Date`. FieldTest/Evidence: what the object says. FieldTest/Download: the calls of
--   `downloadJson` to the browser.
-- - FieldTest/View and its children: the rendered page. FieldTest/Clicks: the clicks that it takes.
--   FieldTest/Verdicts: what it says of a run.
-- - FieldTest/Lifecycle: the step relation of the lab, a click on an enabled button of the rendered page
--   or a tick, and its invariant. FieldTest/Completion: a run to its end. FieldTest/Blockage: the
--   injected obstacle.
-- - Console/Documents and Console/Loading: the documents, and the effect that fetches them; a reply is
--   what `fetch` and `response.json()` settle to.
-- - Console/Timeline: the constant tables. Console/Replay: the state of the console as the record
--   `Console`, with the intervals that are live in the browser; `runHero`, its callback, `replayControl`
--   and the derived flags. Console/Timer, Console/Run and Console/Arrival: what holds of them.
-- - Console/View and its children: the rendered pages. Console/Clicks: the clicks that they take.
--   Console/Verdicts: what they say of the evidence.
-- - Shell: the frame of the page, app/layout.tsx and app/page.tsx, and the bindings of vite.config.ts.
-- - Service/Status: `MissionStatus` and `WorkflowState` of domain.py and state_machine.py, an exception
--   being `none`. Service/Status/History: the reachable histories.
-- - Service/Domain and Service/Approval: the records of domain.py, hashes, proposals and approval tokens.
--   `Clock`, `Digest`, `Repr` and `Arithmetic` stand for what the code uses of datetime, json, hashlib,
--   `repr` and the arithmetic of Python. Service/Lookup: dictionaries as association lists.
-- - Service/Safety and Service/Proof: `SafetyEngine` of safety.py, check by check, with the default
--   policy. Service/Deadlock: its loop over waiting vehicles. Service/SafeRoute and its children: what a
--   safe route is. Service/Sealed: the proof with an approval.
-- - Service/Planner/Search and Service/Planner/Route: `_shortest_path` of simulator.py, a round of its
--   loop at a time, on a heap that is a list. Service/Planner/Plan: `plan` and `_select_agv`.
--   Service/Planner/Walks, Least, Ties, Fuel, Weights and Rounds: the routes that it finds, and its end;
--   Service/Planner/Reached and Frontier: the nodes that it reaches; Service/Planner/Order, Distances,
--   Ahead, Expand and Shortest: the order of distance.
--   Service/Planner/Chosen, Clear and Fresh: the plan, the checks of its route, and the whole way from
--   the plan over its proposal to the safety proof.
-- - Service/World: `ReferenceWorld` of simulator.py, the simulated warehouse. Service/World/Blockage: the
--   blocked node and the plans.
-- - Tests: concrete parameters, and runs at concrete inputs.
--
-- The two components meet in one place: the console renders the lab with a handler that goes back to
-- the evidence page. The lab has no other effect on the console.
--
-- Bounds: the lab's longest schedule lasts 7940 ms, which 159 ticks cover at the lowest speed, and the
-- replay has 14 steps to go. Three definitions take fuel: the decimal digits of a number take the number
-- itself; the loop over waiting vehicles takes a round for each entry of its dictionary and one more,
-- since it stops at the first vehicle it meets twice, and `none` is that it does not end; the search for a route takes `enough_rounds`: no
-- item holds a node twice, so an item gives at most as many items as there are links, each with fewer
-- nodes left.
--
-- Handlers run on the state of the last render, and one at a time, as in the browser. Not modelled:
-- the UI kit (apps/web/components/ui), a copy of a component library, which stands by the names of
-- its elements; the browser's part of the download; the fonts and the build but for the bindings of
-- vite.config.ts; the fields of the documents are taken as their types declare them. Of the service:
-- the controllers that run a mission (workflow.py, mission_service.py, agent.py), the geometry of an
-- obstacle, the HTTP and storage layers, the tools that write and check evidence, and the limits that
-- pydantic checks on construction but for those of a plan. Which entries of its heap
-- `heapq` compares is a parameter: comparing two that differ in their edges alone is a TypeError.
pub mod Common
pub mod Html
pub mod Numbers
pub mod FieldTest
pub mod Console
pub mod Service
pub mod Shell
pub mod Tests
