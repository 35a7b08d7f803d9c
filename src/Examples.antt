-- ===== src/Examples.antt =====
-- Tests of the model and concrete instances of its theorems.
mod Numbers
mod Queue
mod Sessions
mod Answers
mod Filing
mod Upload
mod Evaluation
mod Replay
mod Live
mod Negatives
mod Measures
mod Served
