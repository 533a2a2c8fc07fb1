-- ===== src/Lib.antt =====
-- A simulation of an operating system: processes loaded from files run on simulated CPUs under a
-- multi-level queue scheduler, with a paged memory that has RAM and swap devices.
--
-- The parts, and the files that model them:
--   Queue     src/queue.c, include/queue.h: the bounded array of process pointers of one level.
--             `empty`, `enqueue`, `dequeue` are the functions of that name; `shift` is the loop of
--             `dequeue`. A write behind the array is `none`.
--   Sched     src/sched.c, include/sched.h with MLQ_SCHED: the array of 140 queues with their slots.
--             `turn` is the body of the loop of `get_mlq_proc`, `select_loop` the loop, on the fuel
--             `search_fuel`: it starts again at most once, so twice the number of levels and one more
--             round suffice. It calls Queue through `dispatch` and `put_mlq_proc`. Sched/Single.antt has
--             the calls of the build without MLQ_SCHED.
--   Bits      include/bitops.h and the value operators of include/mm.h, on 32-bit words.
--   Pte       the page table entries and address fields of include/mm.h, and `init_pte`,
--             `pte_set_swap`, `pte_set_fpn` of src/mm.c, built from Bits.
--   Memphy    src/mm-memphy.c: a device with its cells, cursor and frame lists. `MEMPHY_read` is
--             `memphy_read`, and so on. Memphy/Copy.antt has `__swap_cp_page` of src/mm.c. The loop
--             of `MEMPHY_mv_csr` runs on the fuel `maxsz`, which bounds its rounds. Memphy/Dump.antt has
--             `MEMPHY_dump`, as a function to what it writes.
--   Regions   the lists of free regions of src/mm-vm.c and src/mm.c, as lists of nodes with their
--             addresses: `get_free_vmrg_area`, `enlist_vm_freerg_list`, `delete_vm_rg_node`.
--   Vm        the memory of a process, of src/mm.c and src/mm-vm.c. Vm.antt has its record types and the
--             mapping of pages to frames (`alloc_pages_range`, `vmap_page_range`, `vm_map_ram`),
--             Vm/Paging.antt page replacement (`pg_getpage`, `pg_getval`, `pg_setval`), Vm/Area.antt the
--             symbol table and the break (`alloc` and `free` are `__alloc` and `__free`; `pgalloc`,
--             `pgfree_data`, `inc_vma_limit`), Vm/Transfer.antt `pgread` and `pgwrite` (`read` and `write`
--             are `__read` and `__write`) and `free_pcb_memph`, Vm/FindMin.antt `find_min`,
--             Vm/Delist.antt `delist_pgn_node` and Vm/PrintTable.antt `print_pgtbl`, as a function to
--             what it prints. It calls Pte, Memphy and Regions.
--   Cpu       `run` of src/cpu.c with the process and its instructions of include/common.h; `execute` is
--             its `switch`. It calls `pgalloc`, `pgfree_data`, `pgread` and `pgwrite` of Vm. Memory that
--             all processes share is handed from call to call as `Devices`.
--   Os        the loops of src/os.c. Os.antt has `cpu_round`, the body of the loop of `cpu_routine`, and
--             Os/Load.antt `ld_round`, that of `ld_routine`; Os/Threads.antt puts the CPUs and the loader
--             together, with a step for each round of a thread. It calls Sched, Cpu and Vm. What is
--             written behind the ten places of a queue, or read from a freed process, is `none`.
--   Race      `get_mlq_proc` of src/sched.c as several threads call it at once. `call_step` is one critical
--             section under `queue_lock`, or one read without it; Race/Calls.antt has any number of calls,
--             with processes that are put in between. Race/Alone.antt ties it to `get_mlq_proc` of Sched.
--   Boot      `read_config` of src/os.c and `main` up to the start of the threads: `boot` is what stands
--             behind `read_config`. It makes the state that Os and Timer start from, with `init_scheduler`
--             of Sched, `init_memphy` of Memphy and `attach_event` of Timer.
--   Loader    `load` and `get_opcode` of src/loader.c, which make the process that Os adds and Cpu runs.
--             Loader/Print.antt writes the files that it reads, Loader/Runs.antt follows a program from
--             its file to its end.
--   Scanner   what Boot and Loader read files with: `fscanf` is not in the repository, so the file and
--             the conversions `%s`, `%u`, `%d` and `%lu` are a parameter, with what is relied on of them.
--             Scanner/Tokens.antt meets it with lists of words and numbers.
--   Segment   src/mem.c with include/mem.h and the tables of include/common.h, and the functions of
--             src/cpu.c that call it: `alloc_reg`, `free_data`, `read_reg` and `write_reg` are `alloc`,
--             `free_data`, `read` and `write`. The file calls this memory obsoleted and leaves its loops
--             empty; so does the model.
--   Timer     src/timer.c: `timer_step` is a step of `timer_routine`, `next_slot` is the first critical
--             section of the function of that name and `next_slot_over` a test of its wait. A thread that
--             waits has `asleep` set until its condition is signalled, by `signal_event` or `let_go`, or
--             until it wakes by itself. Timer/Lockstep.antt has the steps of all threads, Timer/Sleep.antt
--             and Timer/Awake.antt what holds of those that sleep, Timer/Stop.antt `stop_timer`:
--             `request_stop` is its first line, `join_timer` the rest. `rounds` counts the rounds without
--             a bound, and `current_time` is the `uint64_t` that the program keeps of it.
--   Prelude   the numbers, tests, lists and searches that the parts share.
--
-- Machine integers are natural numbers with their wrap written out; an `int` is its 32-bit pattern.
-- What `malloc` leaves in memory, and the addresses that it returns, are arguments of the
-- definitions that read them. Each call that a lock guards is one step, except in Race, where a step is
-- a critical section.
--
-- Not modelled: `run` of src/cpu.c without MM_PAGING, which does not compile; what `main` of src/os.c does
-- after the threads are started, which is to join them and to call `stop_timer`; and src/paging.c, a
-- small demonstration. The other functions that print or dump only write output; in `run` the calls of
-- `MEMPHY_dump` and `print_pgtbl` are left out, since they change nothing. In Os a round of a CPU or of
-- the loader is one step, so the locks within `get_mlq_proc` are told apart in Race only.
pub mod Prelude
pub mod Queue
pub mod Sched
pub mod Bits
pub mod Pte
pub mod Memphy
pub mod Regions
pub mod Vm
pub mod Cpu
pub mod Os
pub mod Timer
pub mod Scanner
pub mod Loader
pub mod Race
pub mod Boot
pub mod Segment
