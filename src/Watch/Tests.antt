-- ===== src/Watch/Tests.antt =====
-- Runs of the watch of src/fand/filesystem.c.
use amdgpu_fand.Base.{◌≡◌, refl, arith, [], ◌∷◌, false, some, pos, neg, codes}
use amdgpu_fand.Serialize.Outcome.{ret}
use amdgpu_fand.Watch.{InotifyWatch, strrchr, strip_filename, filename, watch_event}
use amdgpu_fand.Watch.Events.{Event, IsEvent, events_bytes, any_reports, watch_event-reports}

-- IN_MODIFY is 2.
abbrev watch : InotifyWatch
watch = record { fd = pos 3; wd = pos 1; flags = 2; triggered = false }

abbrev other_file : Event
other_file = record { wd = 1; mask = 2; cookie = 0; name = codes "passwd"; padding = 10 }

abbrev config_file : Event
config_file = record { wd = 1; mask = 2; cookie = 0; name = codes "fand.conf"; padding = 7 }

other_file-IsEvent : IsEvent other_file
other_file-IsEvent = record { mask_fits = omega arith; len_fits = omega arith; chars = omega arith }

config_file-IsEvent : IsEvent config_file
config_file-IsEvent = record {
  mask_fits = omega arith;
  len_fits = omega arith;
  chars = omega arith;
}

strip_table :
    (strip_filename (codes "/etc/fand.conf") ≡ (pos 0, codes "/etc"))
    × (strip_filename (codes "fand.conf") ≡ (neg 2, codes "fand.conf"))
    × (filename (codes "/etc/fand.conf") ≡ codes "fand.conf")
unfolding strip_filename filename strrchr
strip_table = (refl, refl, refl)

watch_event-reports_example :
    watch_event (some (events_bytes (other_file ∷ config_file ∷ []))) (codes "/etc/fand.conf") watch
    ≡ ret (
      pos 0,
      record watch {
        triggered =
            any_reports 2 (filename (codes "/etc/fand.conf")) (other_file ∷ config_file ∷ []);
      },
    )
watch_event-reports_example =
    watch_event-reports (codes "/etc/fand.conf") watch (other_file ∷ config_file ∷ [])
      (other_file-IsEvent, (config_file-IsEvent, tt))
