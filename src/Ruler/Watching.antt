-- ===== src/Ruler/Watching.antt =====
-- The event handlers of thanosruler_controller.go.
use thanos_operator.Common.{String, Bool, true, false, ◌||◌, List, [], Option, none, some, Labels}
use thanos_operator.Controllers.Enqueue.{Enqueued, requests, and_then, select_request, enqueue}
use thanos_operator.Controllers.Query.{Discovery}
use thanos_operator.Controllers.Reconciling.{Resource}
use thanos_operator.Manifests.Labels.{
  LabelSelector, Built, selector, panic, build_label_selector_from, has_required_labels,
}
use thanos_operator.Manifests.Labels
use thanos_operator.Manifests.Services.{
  Candidate, is_grpc_service_with_labels, is_remote_write_service_with_labels,
}
use thanos_operator.Ruler.Discovery.{
  RulerSpec, required_query_service_labels, default_remote_write_labels, default_rule_labels,
}

unfoldable pub is_queueable_query_service : Candidate → Bool
is_queueable_query_service obj =
    elim (is_grpc_service_with_labels obj required_query_service_labels) [
      | none ↦ false
      | some port ↦ true
    ]

unfoldable pub is_queueable_receive_service : Candidate → Bool
is_queueable_receive_service obj =
    elim (is_remote_write_service_with_labels obj default_remote_write_labels) [
      | none ↦ false
      | some port ↦ true
    ]

-- The call that lists the rulers takes the namespace of the object.
module _ {S Expression : Type 0} (discovery : Discovery S Expression) where
  abbrev pub Ruler : Type 0
  Ruler = Resource (RulerSpec Expression)

  -- The second selector of a turn, of a stateless ruler.
  unfoldable pub receive_turn :
      Labels → Ruler → Option (Option (LabelSelector Expression)) → Enqueued
  unfolding select_request build_label_selector_from
  receive_turn labels ruler none = requests []
  receive_turn labels ruler (some sel) =
      select_request
        (build_label_selector_from discovery.as_selector sel default_remote_write_labels)
        (λ s. discovery.matches s labels) ruler

  -- The first selector; its error skips the second one too.
  unfoldable pub service_turn_with : Labels → Ruler → Built discovery.Selector String → Enqueued
  unfolding and_then select_request receive_turn
  service_turn_with labels ruler (Labels.failed e) = requests []
  service_turn_with labels ruler panic =
      select_request {Error = String} panic (λ s. discovery.matches s labels) ruler
  service_turn_with labels ruler (selector sel) =
      and_then
        (select_request {Error = String} (selector sel) (λ s. discovery.matches s labels) ruler)
        (receive_turn labels ruler ruler.spec.stateless)

  unfoldable pub enqueue_for_service :
      (String → Option (List Ruler)) → String → Candidate → Enqueued
  unfolding enqueue service_turn_with is_queueable_query_service is_queueable_receive_service
      build_label_selector_from
  enqueue_for_service list_rulers namespace obj =
      enqueue (is_queueable_query_service obj || is_queueable_receive_service obj)
        (list_rulers namespace)
        λ ruler. service_turn_with obj.labels ruler (
          build_label_selector_from discovery.as_selector ruler.spec.query_label_selector
            required_query_service_labels)

  unfoldable pub config_map_turn : Labels → Ruler → Enqueued
  unfolding select_request build_label_selector_from
  config_map_turn labels ruler =
      select_request
        (build_label_selector_from discovery.as_selector (some ruler.spec.rule_config_selector)
          default_rule_labels)
        (λ s. discovery.matches s labels) ruler

  unfoldable pub enqueue_for_config_map :
      (String → Option (List Ruler)) → String → Labels → Enqueued
  unfolding enqueue config_map_turn has_required_labels
  enqueue_for_config_map list_rulers namespace labels =
      enqueue (has_required_labels labels default_rule_labels) (list_rulers namespace)
        (config_map_turn labels)

  unfoldable pub prometheus_rule_turn : Labels → Ruler → Enqueued
  unfolding select_request build_label_selector_from
  prometheus_rule_turn labels ruler =
      select_request
        (build_label_selector_from discovery.as_selector (some ruler.spec.rule_config_selector) [])
        (λ s. discovery.matches s labels) ruler

  unfoldable pub enqueue_for_prometheus_rule :
      (String → Option (List Ruler)) → String → Labels → Enqueued
  unfolding enqueue prometheus_rule_turn
  enqueue_for_prometheus_rule list_rulers namespace labels =
      enqueue true (list_rulers namespace) (prometheus_rule_turn labels)
