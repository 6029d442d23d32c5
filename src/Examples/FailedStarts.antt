-- ===== src/Examples/FailedStarts.antt =====
-- The job control: a START of two processes, the second of which cannot be described.
use zdaq.Base.{◌≡◌, refl, [], err, thrown}
use zdaq.Base.Memory.{Bytes, cut}
use zdaq.Base.Text.{codes, bytes_eq}
use zdaq.Base.Map
use zdaq.Json.Packed.{packed, lookup, unpack}
use zdaq.Job.{Job}
use zdaq.Job.Machine.{make_job}
use zdaq.Job.Handlers.{start, launch_all}
use zdaq.Job.Processes.{launch, start_process, make_process, texts}
use zdaq.Job.Thrown.{launched}
use zdaq.Examples.Jobs.{world, asking, configuration, configured, started}

-- Its program is no text.
abbrev broken : Bytes
broken = packed.put (codes "PROGRAM") (packed.append packed.null packed.null) packed.null

abbrev both : Job Bytes
both = record configured { conf = packed.append broken configuration }

fails_to_start : start packed world (asking (codes "START") []) both ≡ err thrown
unfolding start launch_all launch start_process make_process make_job texts lookup bytes_eq cut
    unpack
fails_to_start = refl

-- The first runs, and the machine is still in the state INITIALISED.
leaves_one :
    launched packed world (packed.elements both.conf) both ≡ record started { conf = both.conf }
unfolding launched launch start_process make_process make_job texts lookup bytes_eq cut unpack
    Map.insert
leaves_one = refl
