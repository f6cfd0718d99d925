-- ===== src/Todo.antt =====
-- The TODO plan of an agent: backend/todo.
pub mod Service
pub mod Repository
mod Tests
