-- ===== src/Clients/Contexts/Stale.antt =====
-- A goroutine of `PostContext` of pkg/clients/monitor.go that ends late.
use kubecc.Common.{ℕ, ◌≡◌, refl, ap, ◌∙◌, ◌∷◌, Str}
use kubecc.Common.Map.{lookup, lookup-delete_self}
use kubecc.Clients.Provider.{Message}
use kubecc.Clients.Contexts.{
  MetricContexts, cancel_found, post_context, post_deleter, wake_waiting, wait_ends, local_done,
  caller_done,
}

module _ (deleter : Str → Message) where
  -- The goroutine of a metric ends only after the next metric of its type has come.
  abbrev pub late_end : Message → Message → ℕ → ℕ → MetricContexts → MetricContexts
  late_end m n c d s = wait_ends deleter local_done 1 (post_context n d (post_context m c s))

  -- For every state and every three metrics of one type, where the goroutine of the first metric, whose
  -- local context the second one canceled, ends before the third one comes: the third one cancels no
  -- context, and when then the context of the second one is done, a deleter of the type is posted,
  -- after the third metric and though its own context is not done.
  pub post_context-stale :
      (m n o : Message) (c d e : ℕ) (s : MetricContexts)
      → n.type_url ≡ m.type_url
      → o.type_url ≡ m.type_url
      → let t = post_context o e (late_end m n c d s) in
        (t.canceled ≡ (post_context n d (post_context m c s)).canceled)
        × ((wait_ends deleter caller_done 1 t).posted ≡ deleter n.type_url ∷ o ∷ n ∷ m ∷ s.posted)
  unfolding wait_ends wake_waiting post_context post_deleter cancel_found
  post_context-stale m n o c d e s h k =
      let gone =
        ap (λ u. lookup u (late_end m n c d s).metric_ctx_map) k
        ∙ lookup-delete_self m.type_url (post_context n d (post_context m c s)).metric_ctx_map in
      (ap (λ l. cancel_found l (post_context n d (post_context m c s)).canceled) gone, refl)
