-- ===== src/Runtime/Events/Tests.antt =====
-- src/runtime/mod.rs: a recorded stack.
use cargo_capslock.Prelude.{◌≡◌, refl, true, false, none, some, List, [], ◌∷◌, Text, codes, Result}
use cargo_capslock.Capslock.Caps.{Capability, capability_ord}
use cargo_capslock.Runtime.Process.{State, StartBehaviour}
use cargo_capslock.Runtime.Lookup.{Lookup}
use cargo_capslock.Runtime.Events.{Recorded, record_names, Frame, GlobalState, exit_with, put}
use cargo_capslock.Runtime.Events.Start.{Reaches, exit_with_waiting}
use cargo_capslock.Runtime.Events.Lasts.{IsChain}
use cargo_capslock.Runtime.Events.Chain.{parsable, record_names-IsChain}
use cargo_capslock.Runtime.Tests.{platform, env, shell}

abbrev no_locations : Lookup
no_locations = record { processes = none; reads = 0 }

-- The second frame's name cannot be parsed.
abbrev stack : List Text
stack = codes "read" ∷ codes "<broken" ∷ codes "main" ∷ []

abbrev first : Recorded platform env
first = record { state = shell; lookup = no_locations; child_idx = none }

record_names-IsChain_example :
    IsChain platform
      (record_names platform env true 7 (some 257) (Capability.files ∷ []) stack first).state
      (parsable platform env stack)
record_names-IsChain_example =
    record_names-IsChain platform env true 7 (some 257) (Capability.files ∷ []) stack shell
      no_locations

-- A process that waits for `gettid`.
abbrev waiting : State platform
waiting = record shell {
  waiting_for_start = true;
  start_behaviour = StartBehaviour.only_after (codes "gettid");
}

abbrev traced : GlobalState platform env
traced = record {
  processes = record {
    active = (7, waiting) ∷ [];
    inactive = [];
    start_behaviour = StartBehaviour.only_after (codes "gettid");
    init_pid = 7;
  };
  include_syscalls = true;
  location_lookup = no_locations;
}

abbrev frames : List Frame
frames = record { ip = some 42; name = some (codes "gettid", 1); start_ip = some 41 } ∷ []

exit_with_waiting_example :
    (Reaches (codes "gettid") frames
      → exit_with platform env 7
          (some 186)
          (some frames)
          traced
          (waiting, Result.ok (Capability.files ∷ []))
        ≡ (
          put platform env 7 (record waiting { waiting_for_start = false }) no_locations traced,
          none,
        ))
    × (¬ Reaches (codes "gettid") frames
        → exit_with platform env 7
            (some 186)
            (some frames)
            traced
            (waiting, Result.ok (Capability.files ∷ []))
          ≡ (put platform env 7 waiting no_locations traced, none))
exit_with_waiting_example =
    exit_with_waiting platform env 7 (some 186) frames traced waiting (Capability.files ∷ [])
      (codes "gettid") refl refl
