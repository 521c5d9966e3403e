-- ===== src/Cleanup/Taken.antt =====
-- A scavenger that is taken out of the tables of its thread when it has come back.
use msh.Prelude.{ℕ, ◌+◌, ◌≤◌, ◌≡◌, ap, ◌∙◌, sym, fun_ext, not, false, some, is_minus_one, arith}
use msh.Memory.{max_crt_per_thread, YieldCtx, World}
use msh.IdxList.{IdxList, hosted}
use msh.IdxList.Push.{hosted-pop}
use msh.NextMap.{has_next}
use msh.Hosting.{idx_at}
use msh.Hosting.Steps.{Detach}
use msh.Finish.{finish_crt, finish_crt_flags, finish_crt_scavenger}
use msh.Schedule.{counted}
use msh.Cleanup.Prepare.{Quiet}
use msh.Schedule.Leaving.{taken_out}
use msh.Schedule.Running.{update_map_lem}

module _ (t p i : ℕ) (w : World) (lo : 1 ≤ p) (was : idx_at w t p ≡ some i) where
  pub taken_out-Detach : Detach w (taken_out t p w) t p i
  unfolding taken_out
  taken_out-Detach =
      let f = finish_crt_scavenger t p i (counted w) lo was in
      let m = update_map_lem t (finish_crt t p (counted w)) in
      record {
        idx = λ s q. m.same.idx s q ∙ f.detach.idx s q;
        runs = λ s q lo'. m.same.runs s q lo' ∙ f.detach.runs s q lo';
        slot = λ j. m.same.slot j ∙ f.detach.slot j;
        finished = λ j. m.same.finished j ∙ f.detach.finished j;
        handle = λ j. m.same.handle j ∙ f.detach.handle j;
      }

  pub still_over :
      has_next (w.prim t).ycs 0 ≡ false → has_next ((taken_out t p w).prim t).ycs 0 ≡ false
  unfolding taken_out
  still_over over =
      (update_map_lem t (finish_crt t p (counted w))).runs
      ∙ ap (λ (y : YieldCtx). not (is_minus_one y.normal_next))
          (finish_crt_scavenger t p i (counted w) lo was).primary
      ∙ over

  pub hosted-taken_out :
      p ≤ max_crt_per_thread
      → hosted (w.prim t).idx_list ≡ hosted ((taken_out t p w).prim t).idx_list + 1
  hosted-taken_out hi =
      hosted-pop (w.prim t).idx_list p i lo hi was
      ∙ ap (λ (l : IdxList). hosted l + 1)
          (sym (fun_ext (λ q. ground (arith, (taken_out-Detach).idx t q))))

  pub taken_out-Quiet : Quiet t w (taken_out t p w)
  unfolding taken_out finish_crt
  taken_out-Quiet = record {
    flags = λ s.
        (update_map_lem t (finish_crt t p (counted w))).flags s
        ∙ finish_crt_flags t p (counted w) s;
    contexts = λ s off. ground (arith, was);
  }
