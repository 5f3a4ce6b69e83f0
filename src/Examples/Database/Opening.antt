-- ===== src/Examples/Database/Opening.antt =====
-- A first start of a database, and a scan.
use pedrodb.Base.{refl, arith, []}
use pedrodb.Platform.BigEndian.{big_endian}
use pedrodb.Buffer.{array_buffer}
use pedrodb.File.{no_faults}
use pedrodb.Index.Sample.{function_map}
use pedrodb.Metadata.{path_accepted}
use pedrodb.Db.Open.Fresh.{IsOpened, init-IsOpened}
use pedrodb.Examples.{a_path, no_file}
use pedrodb.Examples.Database.{options}

init-IsOpened_example :
    IsOpened no_faults (λ i. array_buffer []) a_path options 1 8192 2 (λ i. no_file) (λ i. no_file)
init-IsOpened_example =
    init-IsOpened no_faults (λ i. array_buffer []) a_path options 1 8192 2 (λ i. no_file)
      (λ i. no_file) refl (unfold path_accepted in refl) (λ i. refl) refl (omega arith)
