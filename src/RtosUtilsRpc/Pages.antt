-- ===== src/RtosUtilsRpc/Pages.antt =====
-- Which threads a report shows.
use zephyr_common.Common.{
  ℕ, ◌+◌, ◌<◌, ◌^◌, ◌≡◌, refl, sym, ap, ◌∙◌, true, false, Option, some, List, [], ◌∷◌, ◌++◌, map,
  ◌==◌, leb, u8, ok, err, failed, arith, length, length-append, take, drop, append_assoc,
  append-nil,
}
use zephyr_common.Common.Memory.{poke, poke-append}
use zephyr_common.RtosUtilsRpc.{
  Thread, ThreadInfo, CtxObject, Reply, describe, iterate, thread_info_cb, for_threads,
  get_system_threads, or_zero,
}

-- The callback after `done` has been reported, with `room` left.
abbrev At : List ThreadInfo → List ThreadInfo → CtxObject → Type 0
At done room ctx =
    (ctx.thread_info ≡ done ++ room)
    × (ctx.loop_idx ≡ length done)
    × (ctx.max_reportable ≡ length done + length room)
    × (ctx.max_reportable < 2 ^ 8)
    × (ctx.curr_thread_idx ≡ ctx.start_thread_idx + length done)
    × (ctx.start_thread_idx + length room + length done < 2 ^ 8)
    × (ctx.thread_cnt < 2 ^ 8)

cb_full :
    (thread : Thread) (ctx : CtxObject)
    → (ctx.loop_idx == ctx.max_reportable) ≡ true
    → thread_info_cb thread ctx
      ≡ some (record ctx { thread_cnt = u8 (ctx.thread_cnt + 1); ret = err failed })
unfolding thread_info_cb
cb_full thread ctx full = rw (thread_info_cb, full)

cb_reports :
    (thread : Thread) (ctx : CtxObject) (infos : List ThreadInfo)
    → (ctx.loop_idx == ctx.max_reportable) ≡ false
    → leb ctx.start_thread_idx ctx.curr_thread_idx ≡ true
    → poke ctx.thread_info ctx.loop_idx (describe ctx.name_max thread) ≡ some infos
    → thread_info_cb thread ctx
      ≡ some (iterate (record ctx { thread_cnt = u8 (ctx.thread_cnt + 1); thread_info = infos }))
unfolding thread_info_cb
cb_reports thread ctx infos free reached put = rw (thread_info_cb, free, reached, put)

for_threads-cons :
    (thread : Thread) (threads : List Thread) (ctx ctx' : CtxObject)
    → thread_info_cb thread ctx ≡ some ctx'
    → for_threads (thread ∷ threads) ctx ≡ for_threads threads ctx'
unfolding for_threads
for_threads-cons thread threads ctx ctx' e = rw (for_threads, e)

for_threads_full :
    (threads : List Thread) (done : List ThreadInfo) (ctx : CtxObject)
    → At done [] ctx
    → (ctx' : CtxObject) × (for_threads threads ctx ≡ some ctx')
      × (ctx'.thread_info ≡ done)
      × (ctx'.loop_idx ≡ length done)
      × (ctx'.thread_cnt ≡ u8 (ctx.thread_cnt + length threads))
for_threads_full [] done ctx at =
    (ctx, unfold for_threads in refl, at.0 ∙ append-nil done, at.1, omega arith)
for_threads_full (thread ∷ threads) done ctx at =
    let full : (ctx.loop_idx == ctx.max_reportable) ≡ true = ground arith in
    let (ctx', run, infos, idx, cnt) =
      for_threads_full threads done
        (record ctx { thread_cnt = u8 (ctx.thread_cnt + 1); ret = err failed })
        (at.0, at.1, at.2, at.3, at.4, at.5, omega arith) in
    (
      ctx',
      for_threads-cons thread threads ctx _ (cb_full thread ctx full) ∙ run,
      infos,
      idx,
      omega arith,
    )

for_threads_lem :
    (threads : List Thread) (done room : List ThreadInfo) (ctx : CtxObject)
    → At done room ctx
    → let shown = map (describe ctx.name_max) (take (length room) threads) in
      (ctx' : CtxObject) × (for_threads threads ctx ≡ some ctx')
      × (ctx'.thread_info ≡ done ++ (shown ++ drop (length shown) room))
      × (ctx'.loop_idx ≡ length done + length shown)
      × (ctx'.thread_cnt ≡ u8 (ctx.thread_cnt + length threads))
for_threads_lem threads done [] ctx at =
    let (ctx', run, infos, idx, cnt) = for_threads_full threads done ctx at in
    (ctx', run, infos ∙ sym (append-nil done), omega arith, cnt)
for_threads_lem [] done (r ∷ room) ctx at =
    (ctx, unfold for_threads in refl, at.0, omega (arith, at.1), omega arith)
for_threads_lem (thread ∷ threads) done (r ∷ room) ctx (info, idx, max, small, curr, high, few) =
    let free : (ctx.loop_idx == ctx.max_reportable) ≡ false = ground arith in
    let reached : leb ctx.start_thread_idx ctx.curr_thread_idx ≡ true = ground arith in
    let t = describe ctx.name_max thread in
    let put : poke ctx.thread_info ctx.loop_idx t ≡ some (done ++ t ∷ room) =
      ap (λ infos. poke infos ctx.loop_idx t) info ∙ poke-append done room r ctx.loop_idx t idx in
    let l = length-append done (t ∷ []) in
    let next : CtxObject =
      iterate
        (record ctx { thread_cnt = u8 (ctx.thread_cnt + 1); thread_info = done ++ t ∷ room }) in
    let (ctx', run, infos, i, cnt) = for_threads_lem threads (done ++ t ∷ []) room next (
      sym (append_assoc done (t ∷ []) room),
      omega arith,
      omega arith,
      small,
      omega arith,
      omega arith,
      omega arith,
    ) in
    (
      ctx',
      for_threads-cons thread threads ctx next (cb_reports thread ctx _ free reached put) ∙ run,
      infos ∙ append_assoc done (t ∷ []) _,
      omega arith,
      omega arith,
    )

-- The report is of the first threads, as many as there is room for, whatever `idx_start` asks for:
-- it only comes back as it was. The count is theirs, the entries behind them are kept, and the
-- number of all threads is given on 8 bits. The room and `idx_start` are below 256 together.
pub get_system_threads_first :
    (threads : List Thread) (all_stats : Option ℕ) (name_max idx_start : ℕ) (reply : Reply)
    → idx_start + length reply.thread_info < 2 ^ 8
    → let room = length reply.thread_info in
      let shown = map (describe (u8 name_max)) (take room threads) in
      get_system_threads threads all_stats name_max idx_start reply
      ≡ some (record {
        thread_info = shown ++ drop (length shown) reply.thread_info;
        thread_info_count = length shown;
        total_cycles = or_zero all_stats;
        idx_start = idx_start;
        num_threads = u8 (length threads);
      })
unfolding get_system_threads
get_system_threads_first threads all_stats name_max idx_start reply small =
    let room = length reply.thread_info in
    let shown = map (describe (u8 name_max)) (take room threads) in
    let ctx : CtxObject = record {
      loop_idx = 0;
      thread_cnt = 0;
      curr_thread_idx = u8 idx_start;
      start_thread_idx = u8 idx_start;
      max_reportable = u8 room;
      name_max = u8 name_max;
      ret = ok 0;
      thread_info = reply.thread_info;
    } in
    let (ctx', run, infos, idx, cnt) =
      for_threads_lem threads [] reply.thread_info ctx
        (refl, refl, omega arith, omega arith, omega arith, omega arith, omega arith) in
    let idx' : ctx'.loop_idx ≡ length shown = omega arith in
    let cnt' : ctx'.thread_cnt ≡ u8 (length threads) = omega arith in rw (run, infos, idx', cnt')
