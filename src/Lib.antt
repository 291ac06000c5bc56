-- ===== src/Lib.antt =====
-- HabaneroUPC++: the runtime's communication, work stealing and termination detection.
--
-- A program runs at several places (UPC++ ranks). Each place has computation workers and one
-- communication worker. Tasks that leave a place go through the communication deque to the
-- communication worker, which sends them, steals from other places or serves their steals, and
-- takes part in the detection of the global end.
--
-- Files, and the code that they are about (paths from the repository's root):
-- - CommDeque: src/hcupc_spmd-semiConcDeque.cpp. `comm_task_push` and `comm_task_pop` run alone in
--   CommDeque.antt, and one access to the shared variables at a time in CommDeque/Threads.antt.
-- - CommWorker: src/hcupc_spmd.cpp and inc/hcupc_spmd-commTask.h, the tasks that are sent to the
--   communication worker and run by it, on the deque of CommDeque.
-- - EventList: src/hcupc_spmd.cpp, get_upcxx_event and free_upcxx_event_list.
-- - Termination: src/hcupc_spmd.cpp, hcpp_finish_barrier with cb_init, cbarrier_inc, cbarrier_dec and
--   cbarrier_test, at all places at once, as a step relation.
-- - DistWs/Start: src/hcupc_spmd_distWS_common.cpp, initialize_distws_setOfThieves at one place, with
--   the values of the environment that it accepts.
-- - DistWs/InFlight: src/hcupc_spmd_distWS_common.cpp, the counters of tasks in flight, up to
--   decrement_tasks_in_flight_count and total_asyncs_inFlight.
-- - DistWs/ThiefQueue: the same file, the queue of thieves and the marks of contacted victims, with
--   check_cyclicSteals and check_if_out_of_work_stats of src/hcupc_spmd_stats.cpp.
-- - DistWs/Steal: the same file, the baseline work stealing between thieves and victims at all places, as
--   a step relation.
-- - DistWs/Lifeline: the same file, the success-only work stealing at all places, as a step relation.
-- - DistWs/Serve: the same file, how one place serves its thieves with the tasks of its computation
--   workers, in all three modes.
-- - DistWs/Hunt: the same file, how one place searches the others for tasks, in all modes, with
--   mark_myPlace_asIdle; the selection of victims is a parameter that Victims/Selection fills.
-- - Promise: src/hcupc_spmd-distributed-promise.cpp, the distributed promises of all places, with the
--   bytes of their shared arrays; a step takes one message, and a put is two steps.
-- - Dddf: src/hcupc_spmd_dddf.cpp, one distributed data-driven future and the one put on it, at all
--   places, as a step relation; Dddf/Handles has the futures of one place behind their handles.
-- - Remote: inc/hcupc_spmd-commTask.h, asyncAt and async_at_received, and launch_upcxx_async and
--   asyncAny_destination of src/hcupc_spmd_distWS_common.cpp: how lambdas reach other places.
-- - Stats: src/hcupc_spmd_stats.cpp, the counters of one place and the two reports that reset
--   them; Stats/Summary has the sums that are printed over all places.
-- - Victims: inc/hcupc_spmd-random.h, the round-robin and the random selection of victims, and the one
--   along the array of the nearest victims.
-- - Hpt: src/hcupc_spmd-distHPT.cpp, the tree of places and the array of the nearest victims.
-- - Prelude: lists, counting and circular arrays, shared by all.
--
-- Conventions. Function, variable and type names are the source's, in this language's spelling. A
-- failed HASSERT or assert is `none`, or a constructor of its own. Numbers of the program that only
-- grow from 0 are natural numbers without a bound; a counter that other places may decrement is an
-- integer of Prelude/Int.antt. The wrap-around of a 32-bit `int` is not modelled. What the intra-place
-- runtime (hcpp) and UPC++ do is not defined here: it is an argument, a field of a state, or a step that
-- may happen at any time.
--
-- Fuel. The loop of decrement_tasks_in_flight_count takes fuel; one more than the number of places is
-- enough, and this is proved. The loop of the random selection takes fuel too: it is enough that one of
-- the numbers drawn names another place. The loops that serve thieves take fuel: one more than the
-- number of tasks that the computation workers hold is enough, as each round but the last takes a
-- task. The loops of a thief around upcxx::advance take fuel: the answer has to come within so many
-- calls, which is a hypothesis about UPC++ and the victim. The loops of pop_execute_comm_task and
-- free_upcxx_event_list need one more than the number of tasks or events.
--
-- Not modelled: UPC++ and GASNet themselves, the printing of the statistics and of the machine's
-- allocation, the sorting of victims by distance, the parsing of the text of environment variables,
-- the packing of lambdas for the communication worker, asyncCopy, the test programs, and the
-- scripts. The step relations let any local task run at any time, and let a place leave the barrier
-- whenever cbarrier_dec lets it, without the test that leads there. In Serve the computation workers
-- make no new task while one call serves, and thieves change req_thread and the queue only while a
-- batch is sent; in CommWorker a task sends no other while it runs; a
-- copy of bytes in Promise is one step. The percentages of the timeline of failed steals are not
-- modelled, only the sum they are taken of.
pub mod CommDeque
pub mod CommWorker
pub mod Dddf
pub mod DistWs
pub mod EventList
pub mod Hpt
pub mod Prelude
pub mod Promise
pub mod Remote
pub mod Stats
pub mod Termination
pub mod Victims
