-- ===== src/Tests/Logs.antt =====
-- Runs of logstream.go, and the tags of an image.
use opsy_ami_operator.Prelude.{
  false, ℕ, ◌==◌, if◌then◌else◌, true, none, [], ◌∷◌, take, ◌≡◌, refl, ◌⊎◌,
}
use opsy_ami_operator.Prelude.Int.{pos}
use opsy_ami_operator.Go.{ok, err, errorf, pure, total, ◌>>=◌}
use opsy_ami_operator.Env.{Env, Pattern}
use opsy_ami_operator.Env.Aws.{Image}
use opsy_ami_operator.Packer.Manager.{ManagerPacker}
use opsy_ami_operator.Packer.Images.{fixed_tags, build_tags_and_filters}
use opsy_ami_operator.Packer.Images.Tags.{
  tags_of, active_tags, ReadsBack, build_tags_and_filters-ReadsBack,
}
use opsy_ami_operator.Packer.Logs.{field_of}
use opsy_ami_operator.Packer.Logs.Stream.{LogStream, process_log_stream}
use opsy_ami_operator.Packer.Logs.Stream.Read.{first_in, any_match, process_log_stream_lem}
use opsy_ami_operator.Controller.Watch.Pods.{PodApi}
use opsy_ami_operator.Tests.World.{test_env, test_pb, old_image}

abbrev packer : ManagerPacker
packer = record { region = "eu-west-1" }

abbrev two_lines : LogStream
two_lines = record { lines = "packer-1" ∷ "packer-2" ∷ []; scan_error = none }

process_log_stream_lem_example :
    (n : ℕ) × ((p : Pattern)
      → field_of p (process_log_stream test_env packer two_lines (test_pb, tt)).1.0
        ≡ first_in (test_env.submatch p) (take n two_lines.lines) (field_of p test_pb))
    × ((process_log_stream test_env packer two_lines (test_pb, tt)).0 ≡ ok tt
        → (take n two_lines.lines ≡ two_lines.lines)
          ⊎ ((p : Pattern) → any_match (test_env.submatch p) (take n two_lines.lines) ≡ true))
process_log_stream_lem_example = process_log_stream_lem test_env packer two_lines (test_pb, tt)

abbrev pods : PodApi (Unit {0})
pods = record {
  list_pods = λ _ _ w. (
    ok (
        (record {
          name = "web-1-x";
          namespace = "images";
          is_pending = false;
          waiting_reasons = [];
        })
        ∷ []),
    w,
  );
  open_log = λ _ _ w. (ok two_lines, w);
}

-- The clock shows half a second that the text does not have.
abbrev clock_env : Env (Unit {0})
clock_env = record test_env {
  clock = record test_env.clock {
    now = λ w. (pos 1500000000, w);
    format_time = λ _. "0001-01-01T00:00:01Z";
    parse_rfc3339 = λ text.
        if text == "0001-01-01T00:00:01Z"
        then ok (pos 1000000000)
        else err (errorf ("cannot parse " ∷ text ∷ []));
  };
}

abbrev tagged : Image
tagged = record old_image { tags = tags_of (active_tags test_pb "0001-01-01T00:00:01Z") }

build_tags_and_filters-ReadsBack_example :
    ReadsBack clock_env.parse_rfc3339 test_pb.status.last_run_base_image_id (pos 1000000000) tagged
unfolding build_tags_and_filters fixed_tags pure total ◌>>=◌
build_tags_and_filters-ReadsBack_example =
    build_tags_and_filters-ReadsBack clock_env test_pb tagged (pos 1500000000) (pos 1000000000)
      (active_tags test_pb "0001-01-01T00:00:01Z") tt tt refl refl refl refl
