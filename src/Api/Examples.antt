-- ===== src/Api/Examples.antt =====
-- The conversions on a concrete task.
use cloud_agent.Common.{ok, ◌≡◌, refl, ◌≢◌, arith, eq_iff}
use cloud_agent.Api.{
  AgentTask, running, from_unstructured, to_unstructured, state_text, state_of_text, ◌>>=◌,
}
use cloud_agent.Api.RoundTrip.{IsCodec, typed, to_unstructured-from_unstructured}
use cloud_agent.Samples.{codec, task_in}

abbrev task : AgentTask
task = task_in running "claim-1" "pod-1"

codec-IsCodec : IsCodec codec
codec-IsCodec = record {
  marshals = λ u. refl;
  unmarshals = λ fs k given found. refl;
  sets_api_version = λ v u. refl;
  sets_kind = λ k u. refl;
}

named : task.kind ≢ ""
named e = ground (arith, eq_iff "AgentTask" "")

canonical : state_of_text (state_text running) ≡ running
unfolding state_of_text state_text
canonical = refl

to_unstructured-from_unstructured_example :
    (to_unstructured codec task >>= from_unstructured codec) ≡ ok (typed task)
to_unstructured-from_unstructured_example =
    to_unstructured-from_unstructured codec task codec-IsCodec named canonical
