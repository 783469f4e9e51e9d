-- ===== src/Psci/Examples.antt =====
-- A version query, a hypervisor's call and SYSTEM_OFF.
