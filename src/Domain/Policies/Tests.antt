-- ===== src/Domain/Policies/Tests.antt =====
-- domain/core/policies.py: the theorems at the default policies.
