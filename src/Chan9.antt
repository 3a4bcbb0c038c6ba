-- ===== src/Chan9.antt =====
-- Package chan9: the name space of a Plan 9 process. Modelled of it: its path names.
pub mod Names
