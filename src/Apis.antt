-- ===== src/Apis.antt =====
-- pkg/apis/portworx: the types of the custom resources in the two versions, and their deep copies.
-- A struct has a type for each kind of its pointers and slices, so that it serves in memory, where they
-- are references, and for the value that the memory stands for.
pub mod External
pub mod V1beta1
pub mod V1beta2
pub mod Cells
pub mod Zero
pub mod Copy
