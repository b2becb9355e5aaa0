-- ===== src/Api/Events.antt =====
-- Kubernetes events about instrumentation (controller/src/api/v1alpha1/lumigo_events.go). An event
-- is the value that is handed to the event recorder.
use lumigo_kubernetes_operat.Prelude.{String, Error}
use lumigo_kubernetes_operat.K8s.{Resource}

-- corev1.EventTypeNormal and corev1.EventTypeWarning
pub data EventType : Type 0 where
  normal warning : EventType

pub data LumigoEventReason : Type 0 where
  added_instrumentation removed_instrumentation updated_instrumentation : LumigoEventReason
  cannot_add_instrumentation cannot_remove_instrumentation : LumigoEventReason
  cannot_update_instrumentation : LumigoEventReason

-- The message is its format, the trigger and the error, where there is one.
pub data Message : Type 0 where
  plain : String → String → Message
  failed : String → String → Error → Message

pub record Event : Type 0 where
  pub object : Resource
  pub event_type : EventType
  pub reason : LumigoEventReason
  pub message : Message

unfoldable pub added_instrumentation_event : Resource → String → Event
added_instrumentation_event resource trigger = record {
  object = resource;
  event_type = normal;
  reason = added_instrumentation;
  message = plain "Adding Lumigo instrumentation (trigger: %s)" trigger;
}

unfoldable pub removed_instrumentation_event : Resource → String → Event
removed_instrumentation_event resource trigger = record {
  object = resource;
  event_type = normal;
  reason = removed_instrumentation;
  message = plain "Removing Lumigo instrumentation (trigger: %s)" trigger;
}

unfoldable pub updated_instrumentation_event : Resource → String → Event
updated_instrumentation_event resource trigger = record {
  object = resource;
  event_type = normal;
  reason = updated_instrumentation;
  message = plain "Updating Lumigo instrumentation (trigger: %s)" trigger;
}

unfoldable pub cannot_add_instrumentation_event : Resource → String → Error → Event
cannot_add_instrumentation_event resource trigger e = record {
  object = resource;
  event_type = warning;
  reason = cannot_add_instrumentation;
  message = failed "Cannot add Lumigo instrumentation (trigger: %s): %s" trigger e;
}

unfoldable pub cannot_remove_instrumentation_event : Resource → String → Error → Event
cannot_remove_instrumentation_event resource trigger e = record {
  object = resource;
  event_type = warning;
  reason = cannot_remove_instrumentation;
  message = failed "Cannot remove Lumigo instrumentation (trigger: %s): %s" trigger e;
}

unfoldable pub cannot_update_instrumentation_event : Resource → String → Error → Event
cannot_update_instrumentation_event resource trigger e = record {
  object = resource;
  event_type = warning;
  reason = cannot_update_instrumentation;
  message = failed "Cannot update Lumigo instrumentation (trigger: %s): %s" trigger e;
}
