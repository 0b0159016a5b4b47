-- ===== src/Lib.antt =====
-- A model of the safety and control core of minecraft_ai, a persistent agent for Minecraft Bedrock.
--
-- The program has an operator surface, a supervisor that owns the lifecycle and the only path to the
-- game's input, perception that publishes facts to a blackboard, and planning above it. Cognition and
-- skills propose motor actions; the supervisor takes them in RUNNING only and hands them to the motor
-- gate; the gate checks each against a short lease and calls the backend, which presses the keys. A
-- watchdog loop revokes the lease when it expires or when an operator latch is set. Paths below are
-- from the repository's root.
--
--   Prelude            numbers, tests, lists, texts, dicts and sorting that the parts share
--   Outcome            methods that raise: results beside the state, try and finally
--   Safety             src/minecraft_ai/safety.py: State (lifecycle states), Lease (lease, action and
--                      their checks), Backend (protocol and fake), Revocation and Gate (MotorGate)
--   Supervisor         src/minecraft_ai/supervisor.py: the lifecycle methods; Commands has those that
--                      use the gate, and the watchdog's round
--   Operator           src/minecraft_ai/control/operator_budget.py and memory/social.py: Message, Budget;
--                      Fence has src/minecraft_ai/control/request_only.py
--   Blackboard         src/minecraft_ai/perception/blackboard.py
--   Motor              src/minecraft_ai/control/motor.py
--   Timing             src/minecraft_ai/control/policy_timing.py
--   Drain              src/minecraft_ai/worker_drain.py
--   Spatial            src/minecraft_ai/memory/spatial.py: Places, Route
--   Knowledge          src/minecraft_ai/knowledge/model.py: Index (the indices), Graph, Closure (the
--                      prerequisites), and the data
--   Recipes            src/minecraft_ai/knowledge/queries.py
--   Planning           src/minecraft_ai/planning.py: Names (ids), Tree (flattening), Expand (options and
--                      plans on the knowledge graph), and Goal, Plan
--   Skills             src/minecraft_ai/skills/library.py: the statistics and stages of skills, and
--                      Tolerance (scores, blocked skills); Manager has src/minecraft_ai/skills/editor.py,
--                      Recovery has src/minecraft_ai/skills/recovery.py
--   Plan               src/minecraft_ai/plan_graph.py: Text (labels), Skills (alternatives from the
--                      library of skills), Graph (PlanGraph), Build (from labels)
--
-- A method is a function from the state to its outcome and the new state, named as in the source; the
-- state's fields are those of the class. A lock makes a method one step. Readings of the clock, of
-- the latch files, fresh identities and the outcomes of status writes are arguments. Times, sequence
-- numbers and counts are unbounded, as in Python. A text is the list of its code points where the
-- program looks inside it. A float in [0, 1] is a number of units of 2 ^ -1074, the least positive
-- double, which every double is a multiple of. So is a cost or a quantity. Other float arithmetic is
-- a parameter. The route search recurs on fuel: each pushed entry lowers a known cost, so that twice
-- the sum of all costs is enough. A tree of acquisitions is flattened on fuel too, and the number of
-- its plans is enough; so are the digits of a step's id, on fuel above the number. The
-- searches of the knowledge graph have a round for each edge, and the expansion of a target the levels
-- that are left. All other recursion is on lists.
--
-- Not modelled: sockets, processes, files, windows and the game; neural policies and language models;
-- the operator's HTTP server and command line; the validators that pydantic runs on a motor action;
-- of the supervisor the calibration and the probe of the camera, which issue a lease of their own in
-- SAFE_IDLE, and chat and attach; routes over distances that are negative or a NaN, which the program
-- does not rule out and for which its search need not end.
pub mod Prelude
pub mod Outcome
pub mod Safety
pub mod Spatial
pub mod Supervisor
pub mod Timing
pub mod Drain
pub mod Motor
pub mod Operator
pub mod Skills
pub mod Plan
pub mod Knowledge
pub mod Recipes
pub mod Planning
pub mod Blackboard
