-- ===== src/Kube.antt =====
-- The Kubernetes objects and clients that the program calls. None of it is part of the program:
-- the objects have the fields that the code reads or writes, and the clients are parameters.
pub mod Machinery
pub mod Objects
pub mod Clients
pub mod Presence
