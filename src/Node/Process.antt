-- ===== src/Node/Process.antt =====
-- What a node does from its arguments on: the processes of
-- crates/node-access-2role/src/bin/node-access.rs (`TwoRole`) and of
-- crates/node-access-3role/src/bin/node-access.rs (`ThreeRole`). The arguments are what clap makes
-- of the command line.
pub mod TwoRole
pub mod ThreeRole
pub mod Reaches
use node_access.Prelude.{List, Text, str}

-- What a process comes to: it prints lines and ends, or it runs.
pub data Command (R : Type 0) : Type 0 where
  prints : List Text → Command R
  runs : R → Command R

abbrev pub rule : Text
rule = str "--------------------------------------------------"
