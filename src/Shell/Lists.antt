-- ===== src/Shell/Lists.antt =====
-- The namespace of ui/src/components/app-shell.ts and the list views that are told of a change.
