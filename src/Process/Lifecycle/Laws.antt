-- ===== src/Process/Lifecycle/Laws.antt =====
-- What `create_process` and `destroy_process` of nanOS/Kernel/process.c promise.
use tpe_arqui.Prelude.{
  tally, ℕ, ◌+◌, ◌%◌, ◌^◌, ◌<◌, ◌≡◌, ◌≢◌, refl, sym, ap, subst, arith, false, List, get_or, length,
  ◌∙◌,
}
use tpe_arqui.Allocator.Pages.{stack_size, get_page}
use tpe_arqui.Allocator.Pages.Free.{get_page-ne_zero}
use tpe_arqui.Allocator.Stacks.{max_processes, get_stack_page}
use tpe_arqui.Process.Defs.{Process, Processes, Heap, ready, null}
use tpe_arqui.Process.Entries.{index_of, used, get_or_ne}
use tpe_arqui.Process.DataPages.{clean_data_page}
use tpe_arqui.Process.Status.{is_delete_process, pid_process}
use tpe_arqui.Process.Table.{insert_process, get_process_by_pid, number_processes}
use tpe_arqui.Process.Table.Laws.{
  IsValid, insert_process-Inserted, insert_process-IsValid, get_process_by_pid_found,
}
use tpe_arqui.Process.Lifecycle.{
  World, StackFrame, frame_address, base_offset, initial_frame, max_process_name, fill_stack,
  build_process, finish_process, create_process, set_procs,
}

-- The second state has the table of the first, and only the process `p` differs.
record Differs (p : ℕ) (s t : Processes) : Type 0 where
  table : t.process_table ≡ s.process_table
  number : t.n_processes ≡ s.n_processes
  others : (q : ℕ) → q ≢ p → t.heap q ≡ s.heap q

-- The table stays well formed when a process outside it changes.
Differs-IsValid :
    (p : ℕ) (s t : Processes)
    → IsValid s
    → Differs p s t
    → tally p s.process_table ≡ 0
    → p ≢ null
    → IsValid t
Differs-IsValid p s t v d new n = record {
  sized = ap length d.table ∙ v.sized;
  counted = d.number ∙ v.counted ∙ ap used (sym d.table);
  pids = λ i h. ground (
    arith,
    ap (λ xs. get_or xs i null) d.table,
    v.pids i,
    d.others (get_or s.process_table i null),
    get_or_ne s.process_table p i null new n,
  );
}

-- So does it when a process changes that keeps its pid.
Differs-IsValid_same_pid :
    (p : ℕ) (s t : Processes)
    → IsValid s
    → Differs p s t
    → (t.heap p).pid ≡ (s.heap p).pid
    → IsValid t
Differs-IsValid_same_pid p s t v d e = record {
  sized = ap length d.table ∙ v.sized;
  counted = d.number ∙ v.counted ∙ ap used (sym d.table);
  pids = λ i h. ground (
    arith,
    ap (λ xs. get_or xs i null) d.table,
    v.pids i,
    d.others (get_or s.process_table i null),
  );
}

-- The frame under the stack page holds what the first switch restores: the instruction pointer,
-- the argument, the segments, the flags with interrupts on, and the stack pointer.
pub record Starts (rip params stack : ℕ) (frames : ℕ → StackFrame) : Type 0 where
  pub at_rip : (frames (frame_address stack)).rip ≡ rip
  pub with_params : (frames (frame_address stack)).rdi ≡ params
  pub segments :
      ((frames (frame_address stack)).cs ≡ 0x008) × ((frames (frame_address stack)).ss ≡ 0)
  pub flags : (frames (frame_address stack)).eflags ≡ 0x202
  pub stack_pointer :
      (frames (frame_address stack)).rsp ≡ (frame_address stack + base_offset) % 2 ^ 64

build_process-Starts :
    (w : World) (rip params : ℕ) (name : List ℕ)
    → Starts rip params (get_stack_page w.stacks).0 (build_process w rip params name).1.frames
unfolding build_process fill_stack initial_frame
build_process-Starts w rip params name = record {
  at_rip = ground arith;
  with_params = ground arith;
  segments = ground arith;
  flags = ground arith;
  stack_pointer = ground arith;
}

-- What a new process looks like to the rest of the kernel.
pub record Created (w : World) (current rip params : ℕ) (name : List ℕ) (i p : ℕ) (w' : World)
    : Type 0 where
  pub valid : IsValid w'.procs
  pub found : get_process_by_pid w'.procs i ≡ p
  pub state : (w'.procs.heap p).st ≡ ready
  pub starts : Starts rip params (get_stack_page w.stacks).0 w'.frames
  pub named : (w'.procs.heap p).name ≡ name
  pub entry : (w'.procs.heap p).entry_point ≡ rip
  pub stack : (w'.procs.heap p).stack_page ≡ (get_stack_page w.stacks).0
  pub frame : (w'.procs.heap p).rsp ≡ frame_address (get_stack_page w.stacks).0
  pub no_files : (fd : ℕ) → (w'.procs.heap p).open_fds fd ≡ false
  pub no_pages : (w'.procs.heap p).n_data_page ≡ 0
  pub number : number_processes w'.procs ≡ number_processes w.procs + 1
  pub parent : i ≢ 0 → (w'.procs.heap p).ppid ≡ pid_process w.procs.heap current
  pub others : (q : ℕ) → q ≢ p → w'.procs.heap q ≡ w.procs.heap q

build_process_lem :
    (w : World) (rip params : ℕ) (name : List ℕ)
    → let (p, b) = build_process w rip params name in
      (p ≡ (get_page w.pages).0)
      × (b.procs.process_table ≡ w.procs.process_table)
      × (b.procs.n_processes ≡ w.procs.n_processes)
      × ((q : ℕ) → q ≢ p → b.procs.heap q ≡ w.procs.heap q)
      × ((b.procs.heap p).st ≡ ready)
      × ((b.procs.heap p).entry_point ≡ rip)
      × ((b.procs.heap p).stack_page ≡ (get_stack_page w.stacks).0)
      × ((b.procs.heap p).rsp ≡ frame_address (get_stack_page w.stacks).0)
      × ((b.procs.heap p).n_data_page ≡ 0)
      × ((b.procs.heap p).name ≡ name)
unfolding build_process fill_stack clean_data_page
build_process_lem w rip params name = ground arith

finish_process-procs :
    (w : World) (p current : ℕ)
    → let t = (finish_process w p current).procs in
      (t.process_table ≡ w.procs.process_table)
      × (t.n_processes ≡ w.procs.n_processes)
      × ((q : ℕ) → q ≢ p → t.heap q ≡ w.procs.heap q)
      × ((t.heap p).pid ≡ (w.procs.heap p).pid)
      × ((t.heap p).st ≡ (w.procs.heap p).st)
      × ((t.heap p).entry_point ≡ (w.procs.heap p).entry_point)
      × ((t.heap p).stack_page ≡ (w.procs.heap p).stack_page)
      × ((t.heap p).rsp ≡ (w.procs.heap p).rsp)
      × ((t.heap p).n_data_page ≡ (w.procs.heap p).n_data_page)
      × ((t.heap p).name ≡ (w.procs.heap p).name)
      × ((finish_process w p current).frames ≡ w.frames)
      × ((fd : ℕ) → (t.heap p).open_fds fd ≡ false)
      × ((w.procs.heap p).pid ≢ 0 → (t.heap p).ppid ≡ pid_process w.procs.heap current)
unfolding finish_process
finish_process-procs w p current = ground arith

ready-is_delete : (h : Heap) (p : ℕ) → (h p).st ≡ ready → is_delete_process h p ≡ false
unfolding is_delete_process
ready-is_delete h p e = ground arith

number_processes_lem : (s : Processes) → number_processes s ≡ s.n_processes
unfolding number_processes
number_processes_lem s = refl

pid_process_same : (g h : Heap) (q : ℕ) → g q ≡ h q → pid_process g q ≡ pid_process h q
unfolding pid_process
pid_process_same g h q e = ground arith

-- With a data page free and room in the table, `create_process` makes a process of that name that
-- is ready and has the stack page that the allocator gave, with its stack pointer at the frame
-- built there. That frame holds what its first switch restores: it starts at `rip` with `params`
-- as its argument, interrupts on and the stack pointer at the last word of the frame. It has no
-- open file and no data page, is found under its pid, and has the current process as its parent
-- unless its pid is 0. One process more is counted, the table stays well formed, and no other
-- process changes. (The page must not be the address of a process in the table, and the name is
-- shorter than the 64 bytes of its array.)
pub create_process-Created :
    (w : World) (current rip params : ℕ) (name : List ℕ)
    → length name < max_process_name
    → IsValid w.procs
    → w.pages.current_index < stack_size
    → number_processes w.procs < max_processes
    → tally (get_page w.pages).0 w.procs.process_table ≡ 0
    → current ≢ (get_page w.pages).0
    → let (p, w') = create_process w current rip params name in
      (p ≡ (get_page w.pages).0)
      × Created w current rip params name (index_of w.procs.process_table null 0) p w'
unfolding create_process
create_process-Created w current rip params name fits v room space new cur =
    let (p, b) = build_process w rip params name in
    let built = build_process_lem w rip params name in
    let n : p ≢ null = rw (built.0) (get_page-ne_zero w.pages room) in
    let differs : Differs p w.procs b.procs = record {
      table = built.1;
      number = built.2;
      others = built.3;
    } in
    let new' : tally p b.procs.process_table ≡ 0 = rw (built.0, built.1) new in
    let space' : number_processes b.procs < max_processes =
      omega (arith, number_processes_lem b.procs, number_processes_lem w.procs, built.2) in
    let v1 : IsValid b.procs = Differs-IsValid p w.procs b.procs v differs (rw (built.0) new) n in
    let t = (insert_process b.procs p).1 in
    let i = index_of b.procs.process_table null 0 in
    let (_, inserted, _) = insert_process-Inserted b.procs p v1 n space' in
    let v2 : IsValid t = insert_process-IsValid b.procs p v1 n new' space' in
    let u = (finish_process (set_procs b t) p current).procs in
    let finished = finish_process-procs (set_procs b t) p current in
    let differs' : Differs p t u = record {
      table = finished.0;
      number = finished.1;
      others = finished.2;
    } in
    let v3 : IsValid u = Differs-IsValid_same_pid p t u v2 differs' (finished.3) in
    let far : current ≢ p = λ e. cur (e ∙ built.0) in
    let state : (u.heap p).st ≡ ready = ground (arith, finished.4, inserted.pid_set, built.4) in
    let created : Created w current rip params name i p (finish_process (set_procs b t) p current) =
      record {
        valid = v3;
        found =
            get_process_by_pid_found u i p inserted.in_range n
              (ap (λ xs. get_or xs i null) (finished.0) ∙ inserted.at_index)
              (ready-is_delete u.heap p state);
        state = state;
        starts =
            subst (Starts rip params (get_stack_page w.stacks).0) (sym (finished.10))
              (build_process-Starts w rip params name);
        named = cc (finished.9, inserted.pid_set, built.9);
        entry = cc (finished.5, inserted.pid_set, built.5);
        stack = cc (finished.6, inserted.pid_set, built.6);
        frame = cc (finished.7, inserted.pid_set, built.7);
        no_files = finished.11;
        no_pages = cc (finished.8, inserted.pid_set, built.8);
        number = omega (
          arith,
          number_processes_lem u,
          number_processes_lem t,
          number_processes_lem b.procs,
          number_processes_lem w.procs,
          finished.1,
          inserted.number,
          built.2,
        );
        parent = λ z.
            finished.12 (λ e. z (sym (ap (λ (x : Process). x.pid) inserted.pid_set) ∙ e))
            ∙ pid_process_same t.heap w.procs.heap current
                (inserted.elsewhere current far ∙ built.3 current far);
        others = λ q h. finished.2 q h ∙ inserted.elsewhere q h ∙ built.3 q h;
      } in
    (
      built.0,
      subst
          (λ xs.
            Created w current rip params name (index_of xs null 0) p
              (finish_process (set_procs b t) p current))
          (built.1) created,
    )
