-- ===== src/Lib.antt =====
-- Quail runs SQL queries with model calls over a KV cache. This library models the parts that carry
-- its logic, and proves what makes them correct.
--
-- How the parts interact: a client's submission becomes a record in the store of the server
-- (quail/server/store.py); the scheduler (quail/server/scheduler.py) takes the oldest queued
-- record, runs it in an executor, and writes what the executor reports. Inside an execution, the
-- conditions of the query are put in a normal form (quail/logical/expressions.py) and placed where
-- their columns exist (quail/logical/placement.py), the rules of the planner move filters below the
-- joins (quail/planner/rules/tree_transforms.py), the planner searches the orders of the joins and
-- keeps the records of work that no other dominates (quail/planner/search/leftdeep.py,
-- quail/cost/work.py), the predicates of a table are ordered
-- (quail/planner/search/filter_order.py), the questions of a chain are split into passes
-- (quail/cost/packing.py), and the backend keeps document prefixes in an arena
-- (quail/backends/quail/executor/arena.py), which admits, shares and evicts them over the
-- accounting of pages (quail/backends/quail/executor/pages.py).
--
-- Which file models which part:
--   Prelude, Dict, Result: shared tests and list lemmas; a Python dict as an association list in
--     insertion order; a method that may raise.
--   Pages: `PageArena`. Pool has the free list, the page lists and the holds; Slots the checkpoint
--     slots; Heap and Retention the retained keys and the choice of a victim; Arena the methods
--     that touch several of these, and sequences of calls. Python's `heapq` is modelled by what it
--     documents: a pop gives a least entry. The other files prove what their names say.
--   KvArena: `KVArena`, less its tensors, over one or two `PageArena`s. State has the record, the
--     monad of a method that may raise, the page counts and the row indices; Holds the holds of
--     borrowers, the readers, the window floors, `trim_window` and `free_key`; Evict the eviction
--     loop, `retain` and the checkpoint slots; Admit and Activate `alloc`, `activate`, `grow_pages`
--     and `reserve`; Resize `__init__` and `resize`; Checkpoints the records of saved states; Policy
--     the retention policy and the cap; Run sequences of calls. The eviction loop runs on fuel, a round for every retained key and one
--     more. A key is of any type with an equality test, so the type test of `retain` has no
--     counterpart. `object()` of `alloc_temporary` is a key that the caller chooses. The start of a
--     key without sliding rows is 0 where the source raises KeyError for a key that was never
--     allocated. A difference of page counts is 0 where the source's is negative: it is compared
--     with a count of free pages, which is the same. The tokens of a sliding row are cut at 0 where
--     `trim_window` may take more than the row has.
--   Conditions: Syntax has `negate`, `normalize` and `conjuncts`; Kleene the three-valued meaning
--     on a row. The value of a column test is a parameter. `normalize` takes fuel, more than the
--     depth of the condition is enough, and the theorem says so.
--   Placement: Place has `place_conditions` and the columns that an expression reads; whether a
--     part validates is a parameter.
--   Rules: Nodes has the nodes of a logical plan (quail/logical/nodes) with what the rewrites read
--     of them, PushDown `push_down_filters`. Meaning gives a plan its rows in nested loop order,
--     from what the tables hold and the model answers: it is the specification, not the executor.
--     `WithCTE` nodes, `SemanticFilter.stop_key` and `Filter.selectivity` are left out. A filter on
--     several tables raises in `_lets_through` where the model answers whether one of them is meant;
--     such a filter has raised before, when it was visited itself.
--     Pairs, Placing and Keeps prove that the rows stay, Settled and Once that no move is left.
--   FilterOrder: Choose has `order_filters_indexed` over a record of float operations; Permutes and
--     Least prove what their names say. The loop has a round for each predicate that remains.
--   PassGroups: Choose has `choose_pass_groups`, with the price of one group, the sum and the order
--     of costs as a record of operations. Positions count from 0, `inf` is `none`, and a question
--     and its selectivity are one entry of a list. The walk back over the groups has a round for
--     each question, which is enough since each group has one. Scan, Splits and Rounds follow the
--     two loops, Labels the numbering, Least has the theorems.
--   Server: Records has the states and ids of quail/remote/records.py; Store and Lifecycle the
--     methods of `Store`, with a row per id in rowid order; Moves the state machine of a record;
--     Scheduler the events of an execution, Polling `run_one`, with what the executor and the other
--     threads do as an endless sequence of turns of its loop, which runs on fuel. Turns and Liveness
--     show that some fuel is enough where time passes, Stops how a turn closes a record, Closing
--     what `finish` does on each branch. The hash of a submission and the check of a result on disk
--     are parameters. Times are counts of one clock; a lock is the atomicity of a call.
--   Search: Work has the work records, Frontier `insert_nondominated` and the extension of a
--     frontier by a step, Joins `search_left_deep`, with `price_step` as a parameter. Counts are
--     natural numbers, where the source has floats.
--
-- Not modelled: the undoing of a failed plan in quail/backends/quail/executor/gdn.py, which writes
-- the checkpoint slots of the accounting itself; the SQLite file, threads, processes and HTTP; model
-- kernels and tensors, with the block tables, traces and logs of the KV arena; the parser and the
-- rest of the planner and the backend.
pub mod Conditions
pub mod Dict
pub mod FilterOrder
pub mod KvArena
pub mod Pages
pub mod PassGroups
pub mod Placement
pub mod Prelude
pub mod Result
pub mod Rules
pub mod Search
pub mod Server
